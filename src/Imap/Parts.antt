-- ===== src/Imap/Parts.antt =====
-- src/imap/imapFlowAdapter.ts: collectAttachments over the structure of a message.
use mailbridge_mcp.Common.{
  ℕ, String, Bool, false, ◌||◌, not, ◌&&◌, Option, none, some, List, [], ◌∷◌, ◌++◌, str_eq,
  if◌then◌else◌,
}
use mailbridge_mcp.Common.Text.{is_empty}

-- `filename` is that of the disposition, or the name of the type if it is missing; the other texts
-- are in small letters.
pub record NodeInfo : Type 0 where
  pub part : Option String
  pub filename : Option String
  pub disposition : Option String
  pub mime_type : String
  pub size : Option ℕ

mutual
  pub data Node : Type 0 where
    node : NodeInfo → Nodes → Node

  pub data Nodes : Type 0 where
    leaf : Nodes
    branch : Node → Nodes → Nodes

pub record RawAttachment : Type 0 where
  pub part : String
  pub filename : Option String
  pub mime_type : String
  pub size : Option ℕ
  pub disposition : Option String
  pub inline : Bool

-- `!text` is false
abbrev pub is_text : Option String → Bool
is_text none = false
is_text (some s) = not (is_empty s)

abbrev pub is_value : String → Option String → Bool
is_value word none = false
is_value word (some s) = str_eq s word

abbrev pub part_of : Option String → NodeInfo → List RawAttachment
part_of none info = []
part_of (some part) info =
    if not (is_empty part)
      && (is_text info.filename
          || (is_value "attachment" info.disposition || is_value "inline" info.disposition))
    then record {
      part = part;
      filename = info.filename;
      mime_type = info.mime_type;
      size = info.size;
      disposition = info.disposition;
      inline = is_value "inline" info.disposition;
    }
      ∷ []
    else []

unfoldable mutual
  pub visit : Node → List RawAttachment
  visit (node info children) = part_of info.part info ++ visit_all children

  pub visit_all : Nodes → List RawAttachment
  visit_all leaf = []
  visit_all (branch n ns) = visit n ++ visit_all ns

unfoldable pub collect_attachments : Option Node → List RawAttachment
unfolding visit
collect_attachments none = []
collect_attachments (some n) = visit n
