-- ===== src/Tests/Data.antt =====
-- A user with one mailbox, a host and a cipher that are constant where the runs allow it, and the
-- databases that the runs start from.
use mailbridge_mcp.Common.{true, false, none, some, [], ◌∷◌, ok}
use mailbridge_mcp.Common.Host.{Host}
use mailbridge_mcp.Domain.Types.{
  MailboxSettings, MailboxBrand, TlsMode, ConnectionStatus, StoredCredentialEnvelope, DraftPayload,
  DraftStatus, SendReceipt, SendOperationState, SendPolicyView,
}
use mailbridge_mcp.Config.Registry.{MailboxConfig, FolderAccess}
use mailbridge_mcp.Store.Rows.{
  Db, MailboxRow, DraftRow, ConfirmationRow, SendOperationRow, empty_db,
}
use mailbridge_mcp.Store.Cipher.{Cipher}
use mailbridge_mcp.Store.Policies.{default_policy}
use mailbridge_mcp.Send.Service.{Service, World}

abbrev pub host : Host
host = record {
  to_lower_case = λ s. s;
  domain_to_ascii = λ s. s;
  parse_email = λ s. ok s;
  digest_payload = λ message attachments. "d1";
  digest_list = λ texts. "d2";
  digest_text = λ text. "d3";
}

abbrev pub envelope : StoredCredentialEnvelope
envelope = record {
  key_version = "v1";
  payload_iv = "a";
  payload_tag = "b";
  payload_ciphertext = "c";
  wrapped_key_iv = "d";
  wrapped_key_tag = "e";
  wrapped_key_ciphertext = "f";
}

abbrev pub letter : DraftPayload
letter = record {
  message = record {
    mailbox_id = "m1";
    to = "b@x.org" ∷ [];
    cc = [];
    bcc = [];
    subject = "s";
    text_body = "t";
    in_reply_to = none;
    references = [];
  };
  attachments = [];
}

abbrev pub receipt : SendReceipt
receipt = record {
  mailbox_id = "m1";
  message_id = "<d2@x.org>";
  accepted = "b@x.org" ∷ [];
  rejected = [];
  sent_at = 30;
  sent_copy = none;
}

abbrev pub cipher : Cipher
cipher = record {
  encrypt = λ user row credentials. envelope;
  decrypt = λ user row sealed. ok (record { username = "a"; password = "p" });
  encrypt_draft = λ user row payload. envelope;
  decrypt_draft = λ user row sealed. ok letter;
  encrypt_receipt = λ user row value. envelope;
  decrypt_receipt = λ user row sealed. ok receipt;
}

abbrev pub mailbox : MailboxConfig
mailbox = record {
  id = "m1";
  display_name = "Mail";
  email = "a@x.org";
  brand = "general";
  imap_host = "imap.x.org";
  imap_port = 993;
  tls = true;
  send_enabled = true;
  smtp_host = some "smtp.x.org";
  smtp_port = 465;
  smtp_tls_mode = TlsMode.implicit;
  enabled = true;
  folder_access = FolderAccess.allowlist;
  allowed_folders = "INBOX" ∷ [];
  result_limit = 50;
  brand_hints = record { organisation_names = []; domains = []; is_private = false };
}

abbrev pub service : Service
service = record { host = host; cipher = cipher; user = "u"; mailboxes = mailbox ∷ [] }

abbrev pub settings : MailboxSettings
settings = record {
  display_name = "Mail";
  email = "a@x.org";
  brand = MailboxBrand.general;
  purpose = "";
  imap_host = "imap.x.org";
  imap_port = 993;
  tls_mode = TlsMode.implicit;
  allowed_folders = "INBOX" ∷ [];
  send_enabled = true;
  smtp_host = some "smtp.x.org";
  smtp_port = 465;
  smtp_tls_mode = TlsMode.implicit;
  enabled = true;
}

abbrev pub mailbox_row : MailboxRow
mailbox_row = record {
  mailbox_id = "m1";
  user_key = "u";
  settings = settings;
  encrypted_credentials = envelope;
  created_at = 1;
  updated_at = 1;
  last_health_status = ConnectionStatus.connected;
  last_successful_check = some 1;
  last_error_category = none;
}

abbrev pub draft_row : DraftRow
draft_row = record {
  draft_id = "r1";
  user_key = "u";
  mailbox_id = "m1";
  version = 1;
  encrypted_payload = envelope;
  status = DraftStatus.draft;
  created_at = 2;
  updated_at = 2;
  sent_at = none;
  message_id = none;
}

abbrev pub confirmation_row : ConfirmationRow
confirmation_row = record {
  confirmation_id = "c1";
  user_key = "u";
  draft_id = "r1";
  draft_version = 1;
  payload_hash = "d1";
  policy_version = 0;
  expires_at = 100;
  used_at = none;
  created_at = 3;
}

-- A draft of the mailbox, with a confirmation that is good.
abbrev pub confirmed_db : Db
confirmed_db = record empty_db {
  mailboxes = mailbox_row ∷ [];
  drafts = draft_row ∷ [];
  confirmations = confirmation_row ∷ [];
}

-- An operation under way for the draft.
abbrev pub operation_row : SendOperationRow
operation_row = record {
  operation_id = "o1";
  user_key = "u";
  idempotency_key = "draft:r1";
  mailbox_id = "m1";
  payload_hash = "d1";
  state = SendOperationState.submitting;
  accepted_count = 0;
  rejected_count = 0;
  error_code = none;
  created_at = 20;
  updated_at = 20;
}

abbrev pub submitting_db : Db
submitting_db = record confirmed_db { operations = operation_row ∷ [] }

abbrev pub settled_db : Db
settled_db = record confirmed_db {
  operations = record operation_row { state = SendOperationState.rejected } ∷ [];
}

abbrev pub world : World
world = record { db = confirmed_db; submissions = [] }

abbrev pub policy : SendPolicyView
policy = record {
  mailbox_id = "m1";
  policy = default_policy;
  policy_version = 0;
  updated_at = none;
}
