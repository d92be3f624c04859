-- ===== src/Security/StableId.antt =====
-- src/security/stableId.ts. JSON, base64url and HMAC are of the platform; a number that is not a
-- positive integer is none here, and a text that is no JSON object has no fields.
pub mod Codec
use mailbridge_mcp.Common.{
  ℕ, String, Bool, true, false, ◌&&◌, not, Option, none, some, List, [], ◌∷◌, ◌==◌, leb,
  if◌then◌else◌, Result, ok, err,
}
use Prim.Native.Char.{Char, code}
use Prim.Native.String
use Prim.Native.String.{◌++◌}
use mailbridge_mcp.Common.Text.{is_empty, utf16_length, all_word_chars, without}
use mailbridge_mcp.Domain.Errors.{coded, invalid_message_id}
use mailbridge_mcp.Mail.Ids.{Locator, Ids}

pub record MessageLocator : Type 0 where
  pub m : String
  pub f : String
  pub v : String
  pub u : ℕ

-- What JSON.parse gives, as far as isLocator looks at it.
pub record Candidate : Type 0 where
  pub m : Option String
  pub f : Option String
  pub v : Option String
  pub u : Option ℕ

-- `encode_json` is the base64url text of the JSON text, `parse` undoes both and is none where it
-- throws; `sign` is #sign with the key; `bytes` are those of a base64url text; `to_decimal` and
-- `big_int` are toString(10) and BigInt.
pub record Platform : Type 0 where
  pub encode_json : MessageLocator → String
  pub parse : String → Option Candidate
  pub sign : String → String
  pub bytes : String → List ℕ
  pub to_decimal : ℕ → String
  pub big_int : String → ℕ

abbrev pub same_bytes : List ℕ → List ℕ → Bool
same_bytes [] [] = true
same_bytes [] (y ∷ ys) = false
same_bytes (x ∷ xs) [] = false
same_bytes (x ∷ xs) (y ∷ ys) = (x == y) && same_bytes xs ys

abbrev pub add_first : Char → Option (String × String) → Option (String × String)
add_first c none = none
add_first c (some (first, second)) = some (String.◌∷◌ c first, second)

-- The texts before and after the first dot.
abbrev pub split_at_dot : String → Option (String × String)
split_at_dot String.[] = none
split_at_dot (String.◌∷◌ c s) =
    if code c == b'.' then some ("", s) else add_first c (split_at_dot s)

abbrev pub is_part : String → Bool
is_part s = not (is_empty s) && all_word_chars s

abbrev pub checked_parts : Option (String × String) → Option (String × String)
checked_parts none = none
checked_parts (some (first, second)) =
    if is_part first && is_part second then some (first, second) else none

abbrev pub parts_after : Option String → Option (String × String)
parts_after none = none
parts_after (some rest) = checked_parts (split_at_dot rest)

-- `/^mb1\.([A-Za-z0-9_-]+)\.([A-Za-z0-9_-]+)$/`
unfoldable pub match_parts : String → Option (String × String)
match_parts value = parts_after (without value "mb1.")

abbrev pub all_digits : String → Bool
all_digits String.[] = true
all_digits (String.◌∷◌ c s) = (leb b'0' (code c) && leb (code c) b'9') && all_digits s

abbrev pub max_safe_integer : ℕ
max_safe_integer = 9007199254740991

abbrev pub fits : ℕ → String → Bool
fits limit s = not (is_empty s) && leb (utf16_length s) limit

abbrev pub text_field : (String → Bool) → Option String → Option String
text_field test none = none
text_field test (some s) = if test s then some s else none

abbrev pub number_field : Option ℕ → Option ℕ
number_field none = none
number_field (some n) = if leb 1 n && leb n max_safe_integer then some n else none

abbrev pub all_fields :
    Option String → Option String → Option String → Option ℕ → Option MessageLocator
all_fields (some m) (some f) (some v) (some u) = some (record { m = m; f = f; v = v; u = u })
all_fields (some m) (some f) (some v) none = none
all_fields (some m) (some f) none u = none
all_fields (some m) none v u = none
all_fields none f v u = none

-- The candidate where isLocator holds of it.
unfoldable pub is_locator : Candidate → Option MessageLocator
unfolding utf16_length
is_locator candidate =
    all_fields (text_field (fits 64) candidate.m) (text_field (fits 512) candidate.f)
      (text_field (λ v. not (is_empty v) && all_digits v) candidate.v) (number_field candidate.u)

abbrev pub located : Option Candidate → Option MessageLocator
located none = none
located (some candidate) = is_locator candidate

module _ (platform : Platform) where
  unfoldable pub encode : Locator → String
  encode locator =
      let encoded = platform.encode_json (record {
        m = locator.mailbox_id;
        f = locator.folder_id;
        v = platform.to_decimal locator.uid_validity;
        u = locator.uid;
      }) in
      "mb1." ++ (encoded ++ ("." ++ platform.sign encoded))

  abbrev pub to_locator : Option MessageLocator → Result Locator
  to_locator none = err (coded invalid_message_id)
  to_locator (some parsed) = ok (record {
    mailbox_id = parsed.m;
    folder_id = parsed.f;
    uid_validity = platform.big_int parsed.v;
    uid = parsed.u;
  })

  abbrev pub decode_parts : Option (String × String) → Result Locator
  decode_parts none = err (coded invalid_message_id)
  decode_parts (some (encoded, signature)) =
      if same_bytes (platform.bytes (platform.sign encoded)) (platform.bytes signature)
      then to_locator (located (platform.parse encoded))
      else err (coded invalid_message_id)

  unfoldable pub decode : String → Result Locator
  unfolding match_parts is_locator
  decode value = decode_parts (match_parts value)

  unfoldable pub opaque_attachment_id : String → String → String
  opaque_attachment_id stable_id part = "mba1." ++ platform.sign (stable_id ++ ("\0" ++ part))

-- What the mail service uses.
pub stable_ids : Platform → Ids
stable_ids platform = record {
  encode = encode platform;
  decode = decode platform;
  opaque_attachment_id = opaque_attachment_id platform;
}
