-- ===== src/Tests/IdRuns.antt =====
-- Runs of the identifiers of messages.
use mailbridge_mcp.Common.{◌≡◌, ◌≤◌, refl, String, some, [], ◌∷◌, arith, ok, err}
use mailbridge_mcp.Common.Text.{utf16_length}
use mailbridge_mcp.Domain.Errors.{coded, invalid_message_id}
use mailbridge_mcp.Mail.Ids.{Locator}
use mailbridge_mcp.Security.StableId.{Platform, match_parts, is_locator, encode, decode}
use mailbridge_mcp.Security.StableId.Codec.{IsPlatform, decode-encode, decode-signed}

id_code : Unit {0}
unfolding utf16_length match_parts is_locator encode decode
id_code = tt

abbrev the_locator : Locator
the_locator = record { mailbox_id = "m1"; folder_id = "INBOX"; uid_validity = 7; uid = 3 }

-- A platform that writes and reads one message.
unfoldable platform : Platform
platform = record {
  encode_json = λ p. "eyJ";
  parse = λ s. some (record { m = some "m1"; f = some "INBOX"; v = some "7"; u = some 3 });
  sign = λ s. "c2ln";
  bytes = λ s. 115 ∷ 105 ∷ 103 ∷ [];
  to_decimal = λ n. "7";
  big_int = λ s. 7;
}

lawful : IsPlatform platform the_locator
unfolding platform
lawful = record { parsed = refl; encoded = refl; signed = refl; digits = refl; read_back = refl }

decodes : decode platform "mb1.eyJ.c2ln" ≡ ok the_locator
unfolding id_code platform
decodes = refl

refuses_dots : decode platform "mb1.eyJ.c2ln.x" ≡ err (coded invalid_message_id)
unfolding id_code platform
refuses_dots = refl

decode-encode_example : decode platform (encode platform the_locator) ≡ ok the_locator
unfolding utf16_length
decode-encode_example =
    decode-encode platform the_locator lawful refl refl (omega arith) (omega arith)

decode-signed_example :
    (encoded : String) × (signature : String) × (match_parts "mb1.eyJ.c2ln"
      ≡ some (encoded, signature))
    × (platform.bytes (platform.sign encoded) ≡ platform.bytes signature)
    × (1 ≤ the_locator.uid)
decode-signed_example = decode-signed platform "mb1.eyJ.c2ln" the_locator decodes
