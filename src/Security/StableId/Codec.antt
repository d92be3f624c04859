-- ===== src/Security/StableId/Codec.antt =====
-- Which identifiers are decoded.
use mailbridge_mcp.Security.StableId.{all_fields, number_field}
use mailbridge_mcp.Common.{
  ℕ, ◌≤◌, ◌≡◌, ◌∙◌, ap, sym, refl, inl, inr, String, true, ◌&&◌, not, Option, none, some, List, [],
  ◌∷◌, arith, ok, Bool-cases, Option-cases,
}
use Prim.Native.Char.{Char, nul}
use Prim.Native.String.{◌++◌}
use Prim.Native.String.append as append
use mailbridge_mcp.Common.Text.{is_empty, all_word_chars, without}
use mailbridge_mcp.Mail.Ids.{Locator}
use mailbridge_mcp.Security.StableId.{
  MessageLocator, Candidate, Platform, same_bytes, split_at_dot, is_part, match_parts, all_digits,
  fits, max_safe_integer, is_locator, located, encode, decode, decode_parts, to_locator,
}

abbrev pub payload : Platform → Locator → MessageLocator
payload platform locator = record {
  m = locator.mailbox_id;
  f = locator.folder_id;
  v = platform.to_decimal locator.uid_validity;
  u = locator.uid;
}

-- Documented behaviour of JSON, base64url, HMAC and BigInt, at the values that encoding a locator
-- meets.
pub record IsPlatform (platform : Platform) (locator : Locator) : Type 0 where
  pub parsed :
      platform.parse (platform.encode_json (payload platform locator))
      ≡ some (record {
        m = some locator.mailbox_id;
        f = some locator.folder_id;
        v = some (platform.to_decimal locator.uid_validity);
        u = some locator.uid;
      })
  pub encoded : is_part (platform.encode_json (payload platform locator)) ≡ true
  pub signed : is_part (platform.sign (platform.encode_json (payload platform locator))) ≡ true
  pub digits :
      (not (is_empty (platform.to_decimal locator.uid_validity))
        && all_digits (platform.to_decimal locator.uid_validity))
      ≡ true
  pub read_back : platform.big_int (platform.to_decimal locator.uid_validity) ≡ locator.uid_validity

without-append : (part s : String) → without (part ++ s) part ≡ some s
without-append String.[] s = ap some (λ i. append.nil s i)
without-append (String.◌∷◌ c part) s =
    ap (λ t. without t (String.◌∷◌ c part)) (λ i. append.cons c part s i)
    ∙ ground (arith, without-append part s)

abbrev first_char : String → Char
first_char String.[] = nul
first_char (String.◌∷◌ c s) = c

split_at_dot-append :
    (s t : String) → all_word_chars s ≡ true → split_at_dot (s ++ ("." ++ t)) ≡ some (s, t)
split_at_dot-append String.[] t h =
    ap split_at_dot (λ i. append.nil ("." ++ t) i)
    ∙ (ap split_at_dot (λ i. append.cons (first_char ".") "" t i)
        ∙ ap (λ rest. some ("", rest)) (λ i. append.nil t i))
split_at_dot-append (String.◌∷◌ c s) t h =
    ap split_at_dot (λ i. append.cons c s ("." ++ t) i)
    ∙ ground (arith, h, split_at_dot-append s t (ground (arith, h)))

same_bytes_refl : (xs : List ℕ) → same_bytes xs xs ≡ true
same_bytes_refl [] = refl
same_bytes_refl (x ∷ xs) = ground (arith, same_bytes_refl xs)

same_bytes-eq : (xs ys : List ℕ) → same_bytes xs ys ≡ true → xs ≡ ys
same_bytes-eq [] [] h = refl
same_bytes-eq [] (y ∷ ys) h = ground (arith, h)
same_bytes-eq (x ∷ xs) [] h = ground (arith, h)
same_bytes-eq (x ∷ xs) (y ∷ ys) h = ground (arith, h, same_bytes-eq xs ys)

all_fields-u :
    (m f v : Option String) (u : Option ℕ) (p : MessageLocator)
    → all_fields m f v u ≡ some p
    → u ≡ some p.u
all_fields-u (some m) (some f) (some v) (some u) p h = ground (arith, h)
all_fields-u (some m) (some f) (some v) none p h = ground (arith, h)
all_fields-u (some m) (some f) none u p h = ground (arith, h)
all_fields-u (some m) none v u p h = ground (arith, h)
all_fields-u none f v u p h = ground (arith, h)

number_field-positive : (o : Option ℕ) (n : ℕ) → number_field o ≡ some n → 1 ≤ n
number_field-positive none n h = absurd (ground (arith, h))
number_field-positive (some m) n h = ground (arith, h)

located-positive : (c : Option Candidate) (p : MessageLocator) → located c ≡ some p → 1 ≤ p.u
unfolding is_locator
located-positive none p h = absurd (ground (arith, h))
located-positive (some c) p h =
    number_field-positive c.u p.u (all_fields-u _ _ _ (number_field c.u) p h)

module _ (platform : Platform) where
  to_locator-positive :
      (o : Option MessageLocator) (locator : Locator)
      → to_locator platform o ≡ ok locator
      → (p : MessageLocator) × (o ≡ some p) × (p.u ≡ locator.uid)
  to_locator-positive none locator h = absurd (ground (arith, h))
  to_locator-positive (some p) locator h = (p, refl, ground (arith, h))

  decode_parts-signed :
      (encoded signature : String) (locator : Locator)
      → decode_parts platform (some (encoded, signature)) ≡ ok locator
      → (same_bytes (platform.bytes (platform.sign encoded)) (platform.bytes signature) ≡ true)
        × (to_locator platform (located (platform.parse encoded)) ≡ ok locator)
  decode_parts-signed encoded signature locator h =
      elim (Bool-cases
        (same_bytes (platform.bytes (platform.sign encoded)) (platform.bytes signature))) [
          | inl same ↦ (same, ground (arith, h, same))
          | inr other ↦ absurd (ground (arith, h, other))
        ]

  -- An identifier that is decoded has shown a signature of its first part with the key, byte for byte,
  -- and locates a message by a positive UID.
  pub decode-signed :
      (value : String) (locator : Locator)
      → decode platform value ≡ ok locator
      → (encoded : String) × (signature : String) × (match_parts value ≡ some (encoded, signature))
        × (platform.bytes (platform.sign encoded) ≡ platform.bytes signature)
        × (1 ≤ locator.uid)
  unfolding decode
  decode-signed value locator h = elim (Option-cases (match_parts value)) [
    | inl missing ↦ absurd (ground (arith, h, missing))
    | inr ((encoded, signature), found) ↦
        let (same, read) =
          decode_parts-signed encoded signature locator
            (ap (decode_parts platform) (sym found) ∙ h) in
        let (p, is_p, uid) = to_locator-positive (located (platform.parse encoded)) locator read in
        let positive : 1 ≤ p.u = located-positive (platform.parse encoded) p is_p in
        (
          encoded,
          signature,
          found,
          same_bytes-eq (platform.bytes (platform.sign encoded)) (platform.bytes signature) same,
          omega (arith, positive, uid),
        )
  ]

  -- A locator that a message can have is decoded from its identifier, if the platform reads back what
  -- it has written for it.
  pub decode-encode :
      (locator : Locator)
      → IsPlatform platform locator
      → fits 64 locator.mailbox_id ≡ true
      → fits 512 locator.folder_id ≡ true
      → 1 ≤ locator.uid
      → locator.uid ≤ max_safe_integer
      → decode platform (encode platform locator) ≡ ok locator
  unfolding decode encode match_parts is_locator
  decode-encode locator lawful mailbox folder positive safe =
      let encoded = platform.encode_json (payload platform locator) in
      let signature = platform.sign encoded in
      ground (
        arith,
        without-append "mb1." (encoded ++ ("." ++ signature)),
        split_at_dot-append encoded signature (ground (arith, lawful.encoded)),
        lawful.encoded,
        lawful.signed,
        lawful.parsed,
        lawful.digits,
        lawful.read_back,
        same_bytes_refl (platform.bytes signature),
        mailbox,
        folder,
        positive,
        safe,
      )
