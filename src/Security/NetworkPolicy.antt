-- ===== src/Security/NetworkPolicy.antt =====
-- src/security/networkPolicy.ts. Addresses are numbers; `ip` is isIP with the number of the address,
-- and the subnets of a BlockList are tested on numbers.
pub mod Resolved
use mailbridge_mcp.Common.{
  ℕ, ◌+◌, ◌-◌, ◌*◌, ◌/◌, ◌^◌, String, Bool, true, false, ◌&&◌, ◌||◌, not, Option, none, some, List,
  [], ◌∷◌, ◌==◌, ltb, leb, any, length, if◌then◌else◌, Result, ok, err,
}
use Prim.Native.Char.{Char, code}
use Prim.Native.String
use mailbridge_mcp.Common.Text.{is_empty, utf16_length, trim, includes, is_letter}
use mailbridge_mcp.Send.Policy.{◌>>=◌}
use mailbridge_mcp.Domain.Errors.{
  Error, mail_bridge, coded, endpoint_host_invalid, endpoint_dns_failed, endpoint_not_public,
}

pub data Ip : Type 0 where
  v4 v6 : ℕ → Ip

-- A network and the length of its prefix.
pub record Subnet : Type 0 where
  pub network : ℕ
  pub prefix : ℕ

abbrev pub is_in : ℕ → ℕ → Subnet → Bool
is_in bits address subnet =
    address / 2 ^ (bits - subnet.prefix) == subnet.network / 2 ^ (bits - subnet.prefix)

abbrev pub quad : ℕ → ℕ → ℕ → ℕ → ℕ → Subnet
quad a b c d prefix = record { network = ((a * 256 + b) * 256 + c) * 256 + d; prefix = prefix }

abbrev pub blocked_ipv4 : List Subnet
blocked_ipv4 =
    quad 0 0 0 0 8
    ∷ quad 10 0 0 0 8
    ∷ quad 100 64 0 0 10
    ∷ quad 127 0 0 0 8
    ∷ quad 169 254 0 0 16
    ∷ quad 172 16 0 0 12
    ∷ quad 192 0 0 0 24
    ∷ quad 192 0 2 0 24
    ∷ quad 192 88 99 0 24
    ∷ quad 192 168 0 0 16
    ∷ quad 198 18 0 0 15
    ∷ quad 198 51 100 0 24
    ∷ quad 203 0 113 0 24
    ∷ quad 224 0 0 0 4
    ∷ quad 240 0 0 0 4
    ∷ []

-- The first four groups of 16 bits, and the last two.
abbrev pub groups : ℕ → ℕ → ℕ → ℕ → ℕ → Subnet
groups a b c last prefix = record {
  network = ((a * 65536 + b) * 65536 + c) * 2 ^ 80 + last;
  prefix = prefix;
}

abbrev pub blocked_ipv6 : List Subnet
blocked_ipv6 =
    groups 0 0 0 0 128
    ∷ groups 0 0 0 1 128
    ∷ groups 0 0 0 (0xffff * 2 ^ 32) 96
    ∷ groups 0x64 0xff9b 1 0 48
    ∷ groups 0x100 0 0 0 64
    ∷ groups 0x2001 0xdb8 0 0 32
    ∷ groups 0xfc00 0 0 0 7
    ∷ groups 0xfe80 0 0 0 10
    ∷ groups 0xff00 0 0 0 8
    ∷ []

-- `/^::ffff:/i`
abbrev pub without_word : String → String → Option String
without_word s String.[] = some s
without_word String.[] (String.◌∷◌ c word) = none
without_word (String.◌∷◌ d s) (String.◌∷◌ c word) =
    if is_letter d c then without_word s word else none

abbrev pub hex_digit : ℕ → Option ℕ
hex_digit c =
    if leb b'0' c && leb c b'9'
    then some (c - b'0')
    else if leb b'a' c && leb c b'f'
    then some (c - b'a' + 10)
    else if leb b'A' c && leb c b'F'
    then some (c - b'A' + 10)
    else none

abbrev pub hex_step : ℕ → Option ℕ → (ℕ → Option ℕ) → Option ℕ
hex_step value none next = none
hex_step value (some digit) next = next (value * 16 + digit)

-- The number that the digits stand for, after a number that is read.
abbrev pub hex_digits : String → ℕ → Option ℕ
hex_digits String.[] value = some value
hex_digits (String.◌∷◌ c s) value = hex_step value (hex_digit (code c)) (λ read. hex_digits s read)

-- `[0-9a-f]{1,4}` and parseInt of it.
abbrev pub hex_group : String → Option ℕ
hex_group s = if not (is_empty s) && leb (utf16_length s) 4 then hex_digits s 0 else none

abbrev pub add_before : Char → Option (String × String) → Option (String × String)
add_before c none = none
add_before c (some (first, second)) = some (String.◌∷◌ c first, second)

abbrev pub split_at_colon : String → Option (String × String)
split_at_colon String.[] = none
split_at_colon (String.◌∷◌ c s) =
    if code c == b':' then some ("", s) else add_before c (split_at_colon s)

abbrev pub joined : Option ℕ → Option ℕ → Option ℕ
joined (some high) (some low) = some (high * 65536 + low)
joined (some high) none = none
joined none low = none

abbrev pub two_groups : Option (String × String) → Option ℕ
two_groups none = none
two_groups (some (high, low)) = joined (hex_group high) (hex_group low)

abbrev pub dotted_or_hex : Option Ip → String → Option ℕ
dotted_or_hex (some (Ip.v4 n)) rest = some n
dotted_or_hex (some (Ip.v6 n)) rest = two_groups (split_at_colon rest)
dotted_or_hex none rest = two_groups (split_at_colon rest)

abbrev pub strip_first : String → String
strip_first String.[] = ""
strip_first (String.◌∷◌ c s) = if code c == b'[' then s else String.◌∷◌ c s

abbrev pub strip_last : String → String
strip_last String.[] = ""
strip_last (String.◌∷◌ c s) =
    if code c == b']' && is_empty s then "" else String.◌∷◌ c (strip_last s)

pub record ResolvedPublicEndpoint : Type 0 where
  pub hostname : String
  pub address : String
  pub address_count : ℕ

abbrev pub is_address : Option Ip → Bool
is_address none = false
is_address (some n) = true

-- `ip` is isIP, `lookup` that of node:dns.
module _ (ip : String → Option Ip) (lookup : String → Result (List String)) where
  abbrev pub mapped_rest : Option String → Option ℕ
  mapped_rest none = none
  mapped_rest (some rest) = dotted_or_hex (ip rest) rest

  -- The IPv4 address of a mapped address.
  unfoldable pub mapped_ipv4 : String → Option ℕ
  unfolding utf16_length
  mapped_ipv4 address = mapped_rest (without_word address "::ffff:")

  abbrev pub is_public_v4 : ℕ → Bool
  is_public_v4 n = not (any (is_in 32 n) blocked_ipv4)

  abbrev pub is_public_v6 : ℕ → Option ℕ → Bool
  is_public_v6 n (some mapped) = is_public_v4 mapped
  is_public_v6 n none = not (any (is_in 128 n) blocked_ipv6)

  abbrev pub is_public_ip : String → Option Ip → Bool
  is_public_ip address none = false
  is_public_ip address (some (Ip.v4 n)) = is_public_v4 n
  is_public_ip address (some (Ip.v6 n)) = is_public_v6 n (mapped_ipv4 address)

  unfoldable pub is_public_address : String → Bool
  unfolding any mapped_ipv4
  is_public_address address = is_public_ip address (ip address)

  abbrev pub first_of : String → List String → Result ResolvedPublicEndpoint
  first_of hostname [] = err (mail_bridge endpoint_dns_failed true)
  first_of hostname (address ∷ rest) =
      if any (λ a. not (is_public_address a)) (address ∷ rest)
      then err (coded endpoint_not_public)
      else ok (record {
        hostname = hostname;
        address = address;
        address_count = length (address ∷ rest);
      })

  unfoldable pub resolve_public_endpoint : String → Result ResolvedPublicEndpoint
  unfolding any trim utf16_length includes
  resolve_public_endpoint hostname =
      let normalized = strip_last (strip_first (trim hostname)) in
      let looked_up = (do addresses ← lookup normalized; first_of normalized addresses) in
      if is_empty normalized || (ltb 253 (utf16_length normalized) || includes normalized "\0")
      then err (coded endpoint_host_invalid)
      else if is_address (ip normalized)
      then first_of normalized (normalized ∷ [])
      else looked_up
