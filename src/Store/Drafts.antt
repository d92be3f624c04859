-- ===== src/Store/Drafts.antt =====
-- src/app/store.ts: createDraft to markDraftSent. A draft is kept as an envelope, and its version
-- guards every change.
pub mod Versions
use mailbridge_mcp.Common.{
  ℕ, suc, String, Bool, true, false, not, ◌&&◌, none, some, [], ◌∷◌, ◌++◌, map, str_eq, ◌==◌, find,
  any, update_where, delete_where, count_where, length, if◌then◌else◌, Exec, pure, throw_if, lift,
  gets, modify, or_throw, transaction, ◌>>=◌, ◌>>◌,
}
use mailbridge_mcp.Domain.Errors.{
  plain, coded, draft_already_sent, draft_version_conflict, mailbox_mismatch, attachment_conflict,
  attachment_not_found,
}
use mailbridge_mcp.Domain.Types.{
  DraftStatus, draft, sent, DraftPayload, DraftAttachment, MailDraftView, SendReceipt,
}
use mailbridge_mcp.Store.Rows.{Db, DraftRow, is_draft, of_draft, insert_row, audit}
use mailbridge_mcp.Store.Cipher.{Cipher}
use mailbridge_mcp.Store.Policies.{row}

abbrev pub is_open : DraftStatus → Bool
is_open draft = true
is_open sent = false

-- SELECT * FROM mail_drafts WHERE user_key = ? AND draft_id = ?
unfoldable pub draft_row : String → String → Exec Db DraftRow
draft_row user id = do
  found ← gets (λ db. find (is_draft user id) db.drafts)
  or_throw found (plain "Draft not found")

abbrev pub view_draft : DraftRow → DraftPayload → MailDraftView
view_draft row payload = record {
  draft_id = row.draft_id;
  version = row.version;
  message = payload.message;
  attachments = map (λ a. a.metadata) payload.attachments;
  status = row.status;
  created_at = row.created_at;
  updated_at = row.updated_at;
  sent_at = row.sent_at;
  message_id = row.message_id;
}

-- WHERE user_key = ? AND draft_id = ? AND version = ? AND status = 'draft'
abbrev pub is_editable : String → String → ℕ → DraftRow → Bool
is_editable user id version row =
    is_draft user id row && (row.version == version && is_open row.status)

-- WHERE user_key = ? AND draft_id = ? AND status = 'draft'
abbrev pub is_unsent : String → String → DraftRow → Bool
is_unsent user id row = is_draft user id row && is_open row.status

abbrev pub has_attachment : String → DraftAttachment → Bool
has_attachment id a = str_eq a.attachment_id id

module _ (cipher : Cipher) where
  unfoldable pub get_draft_payload : String → String → Exec Db DraftPayload
  unfolding draft_row
  get_draft_payload user id = do
    row ← draft_row user id
    lift (cipher.decrypt_draft user row.draft_id row.encrypted_payload)

  unfoldable pub get_draft : String → String → Exec Db MailDraftView
  unfolding draft_row get_draft_payload
  get_draft user id = do
    row ← draft_row user id
    payload ← get_draft_payload user id
    pure (view_draft row payload)

  -- `id` is the new identifier, `draft_` and a random UUID.
  unfoldable pub create_draft : String → DraftPayload → String → ℕ → Exec Db MailDraftView
  unfolding row transaction audit get_draft insert_row
  create_draft user payload id now = do
    _ ← row user payload.mailbox_id
    transaction (do
      drafts ← gets (λ db. db.drafts)
      drafts' ← lift (
          insert_row (is_draft user id)
            (record {
              draft_id = id;
              user_key = user;
              mailbox_id = payload.mailbox_id;
              version = 1;
              encrypted_payload = cipher.encrypt_draft user id payload;
              status = draft;
              created_at = now;
              updated_at = now;
              sent_at = none;
              message_id = none;
            })
            drafts)
      modify (λ db. record db { drafts = drafts' })
      audit user (some payload.mailbox_id) "MAIL_DRAFT_CREATED" true now)
    get_draft user id

  -- The transaction of updateDraft.
  unfoldable pub write_draft : String → String → ℕ → DraftPayload → String → ℕ → Exec Db (Unit {0})
  unfolding audit
  write_draft user id expected payload mailbox now = do
    changes ← gets (λ db. count_where (is_editable user id expected) db.drafts)
    modify (λ db. record db {
      drafts =
          update_where (is_editable user id expected)
            (λ d. record d {
              encrypted_payload = cipher.encrypt_draft user id payload;
              version = suc d.version;
              updated_at = now;
            })
            db.drafts;
    })
    throw_if (not (changes == 1)) (coded draft_version_conflict)
    modify (λ db. record db { confirmations = delete_where (of_draft user id) db.confirmations })
    audit user (some mailbox) "MAIL_DRAFT_UPDATED" true now

  unfoldable pub update_draft : String → String → ℕ → DraftPayload → ℕ → Exec Db MailDraftView
  unfolding get_draft transaction write_draft
  update_draft user id expected payload now = do
    current ← get_draft user id
    throw_if (not (is_open current.status)) (coded draft_already_sent)
    throw_if (not (current.version == expected)) (coded draft_version_conflict)
    throw_if (not (str_eq current.mailbox_id payload.mailbox_id)) (coded mailbox_mismatch)
    transaction (write_draft user id expected payload current.mailbox_id now)
    get_draft user id

  unfoldable pub add_draft_attachment :
      String → String → ℕ → DraftAttachment → ℕ → ℕ → Exec Db MailDraftView
  unfolding get_draft_payload update_draft audit
  add_draft_attachment user id expected attachment now later = do
    payload ← get_draft_payload user id
    throw_if (any (has_attachment attachment.attachment_id) payload.attachments)
        (coded attachment_conflict)
    view ←
        update_draft user id expected
          (record payload { attachments = payload.attachments ++ attachment ∷ [] }) now
    audit user (some payload.mailbox_id) "MAIL_DRAFT_ATTACHMENT_ADDED" true later
    pure view

  unfoldable pub remove_draft_attachment :
      String → String → ℕ → String → ℕ → ℕ → Exec Db MailDraftView
  unfolding get_draft_payload update_draft audit
  remove_draft_attachment user id expected attachment now later = do
    payload ← get_draft_payload user id
    let updated = delete_where (has_attachment attachment) payload.attachments
    throw_if (length updated == length payload.attachments) (coded attachment_not_found)
    view ← update_draft user id expected (record payload { attachments = updated }) now
    audit user (some payload.mailbox_id) "MAIL_DRAFT_ATTACHMENT_REMOVED" true later
    pure view

  -- The UPDATE of markDraftSent, and what follows it.
  unfoldable pub write_sent : String → String → SendReceipt → String → Exec Db MailDraftView
  unfolding get_draft audit
  write_sent user id receipt mailbox = do
    changes ← gets (λ db. count_where (is_unsent user id) db.drafts)
    modify (λ db. record db {
      drafts =
          update_where (is_unsent user id)
            (λ d. record d {
              status = sent;
              sent_at = some receipt.sent_at;
              message_id = some receipt.message_id;
              version = suc d.version;
              updated_at = receipt.sent_at;
            })
            db.drafts;
    })
    throw_if (not (changes == 1)) (plain "Draft status changed before send completion")
    audit user (some mailbox) "MAIL_DRAFT_SENT" true receipt.sent_at
    get_draft user id

  unfoldable pub mark_draft_sent : String → String → SendReceipt → Exec Db MailDraftView
  unfolding get_draft write_sent
  mark_draft_sent user id receipt = do
    current ← get_draft user id
    if is_open current.status then write_sent user id receipt current.mailbox_id else pure current
