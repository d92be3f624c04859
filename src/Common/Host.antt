-- ===== src/Common/Host.antt =====
-- What the program takes from its platform and from packages: the Unicode case table, IDNA, the
-- address grammar of zod, and SHA-256 over JSON text. All are functions of their arguments.
use mailbridge_mcp.Common.Effects.{Result}
use mailbridge_mcp.Domain.Types.{DraftMessage, DraftAttachmentView}
use Prim.Native.String.{String}
use mathlib.Core.List.{List}

pub record Host : Type 0 where
  pub to_lower_case : String → String
  pub domain_to_ascii : String → String
  pub parse_email : String → Result String
  -- The hexadecimal digest of the JSON text of a payload without the contents of its attachments.
  pub digest_payload : DraftMessage → List DraftAttachmentView → String
  -- The hexadecimal digest of the JSON text of a list of strings, and of one text.
  pub digest_list : List String → String
  pub digest_text : String → String
