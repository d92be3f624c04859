-- ===== src/Store/Drafts/Versions.antt =====
-- What a successful edit of a draft has found, and what it leaves.
use mailbridge_mcp.Store.Drafts.{
  is_open, is_unsent, write_sent, get_draft, mark_draft_sent, get_draft_payload, update_draft,
  is_editable,
}
use mailbridge_mcp.Common.{
  ℕ, suc, ◌≡◌, ◌≢◌, ◌⊎◌, if◌then◌else◌, refl, String, some, arith, eq_iff, find, find-holds,
  find-update_where, find-delete_where_kept, update_where, delete_where, ok, err, Option-cases, inl,
  inr,
}
use mailbridge_mcp.Domain.Types.{SendReceipt, DraftPayload, MailDraftView, draft, sent}
use mailbridge_mcp.Domain.Errors.{
  coded, send_confirmation_invalid, draft_version_conflict, draft_already_sent,
}
use mailbridge_mcp.Store.Rows.{Db, DraftRow, is_draft, of_draft, is_confirmation}
use mailbridge_mcp.Store.Cipher.{Cipher}
use mailbridge_mcp.Store.Confirmations.{consume_send_confirmation}

-- The draft as an edit writes it.
abbrev edited : Cipher → String → String → DraftPayload → ℕ → DraftRow → DraftRow
edited cipher user id payload now d = record d {
  encrypted_payload = cipher.encrypt_draft user id payload;
  version = suc d.version;
  updated_at = now;
}

module _ (cipher : Cipher) (db db' : Db) (user id : String) (expected : ℕ) (payload : DraftPayload)
    (now : ℕ) (v : MailDraftView)
    (h : update_draft cipher user id expected payload now db ≡ (ok v, db')) where
  update_draft-confirmations : db'.confirmations ≡ delete_where (of_draft user id) db.confirmations
  unfolding update_draft
  update_draft-confirmations = ground arith

  update_draft-drafts :
      db'.drafts
      ≡ update_where (is_editable user id expected) (edited cipher user id payload now) db.drafts
  unfolding update_draft
  update_draft-drafts = ground arith

  update_draft-found :
      (r : DraftRow) × (find (is_draft user id) db.drafts ≡ some r)
      × (r.version ≡ expected)
      × (r.status ≡ draft)
  unfolding update_draft
  update_draft-found = elim (Option-cases (find (is_draft user id) db.drafts)) [
    | inl missing ↦ ground arith
    | inr (r, found) ↦ (r, found, ground arith, ground arith)
  ]

  update_draft-row :
      (r : DraftRow)
      → find (is_draft user id) db.drafts ≡ some r
      → find (is_draft user id) db'.drafts ≡ some (edited cipher user id payload now r)
  unfolding update_draft
  update_draft-row r found = ground (
    arith,
    update_draft-drafts,
    update_draft-found,
    find-update_where (is_draft user id) (is_editable user id expected)
        (edited cipher user id payload now) db.drafts (λ x. refl),
    find-holds (is_draft user id) db.drafts r found,
  )

  -- After an edit that returns, any confirmation that is shown for the draft is refused as invalid
  -- and nothing is changed.
  pub update_draft-consume :
      (confirmation : String) (version : ℕ) (hash : String) (policy later : ℕ)
      → consume_send_confirmation user confirmation id version hash policy later db'
        ≡ (err (coded send_confirmation_invalid), db')
  unfolding consume_send_confirmation
  update_draft-consume confirmation version hash policy later =
      elim (Option-cases (find (is_confirmation user confirmation) db'.confirmations)) [
        | inl missing ↦ ground arith
        | inr (c, found) ↦ ground (
          arith,
          find-holds (is_confirmation user confirmation) db'.confirmations c found,
          find-delete_where_kept (is_confirmation user confirmation) (of_draft user id)
              db.confirmations c,
          update_draft-confirmations,
        )
      ]

  -- After an edit that returns, the payload that is read back is the one that was written, if the
  -- cipher opens what it has sealed for this draft.
  pub update_draft-payload :
      cipher.decrypt_draft user id (cipher.encrypt_draft user id payload) ≡ ok payload
      → get_draft_payload cipher user id db' ≡ (ok payload, db')
  unfolding get_draft_payload
  update_draft-payload opens =
      let (r, found, _, _) = update_draft-found in
      ground (
        arith,
        update_draft-row r found,
        find-holds (is_draft user id) db.drafts r found,
        eq_iff r.draft_id id,
      )

module _ (cipher : Cipher) (db : Db) (user id : String) (v : MailDraftView)
    (readable : get_draft cipher user id db ≡ (ok v, db)) where
  -- A draft that is read as sent or as of another version is not edited.
  update_draft-refused :
      (expected : ℕ) (payload : DraftPayload) (now : ℕ)
      → (v.status ≡ sent) ⊎ (v.version ≢ expected)
      → update_draft cipher user id expected payload now db ≡ (
        err (coded (if is_open v.status then draft_version_conflict else draft_already_sent)),
        db,
      )
  unfolding update_draft
  update_draft-refused expected payload now stale = ground arith

module _ (cipher : Cipher) (db db' : Db) (user id : String) (expected : ℕ) (payload : DraftPayload)
    (now : ℕ) (v : MailDraftView)
    (h : update_draft cipher user id expected payload now db ≡ (ok v, db')) where
  update_draft-read : get_draft cipher user id db' ≡ (ok v, db')
  unfolding update_draft
  update_draft-read = ground arith

  update_draft-view : (v.version ≡ suc expected) × (v.status ≡ draft)
  unfolding get_draft
  update_draft-view =
      let (r, found, version, status) =
        update_draft-found cipher db db' user id expected payload now v h in
      let row = update_draft-row cipher db db' user id expected payload now v h r found in
      (
        ground (arith, update_draft-read, row, version),
        ground (arith, update_draft-read, row, status),
      )

  -- Of two edits of a draft that expect the same version, one right after the other, only the first
  -- is made: when it has returned, the other is refused with the conflict of versions and changes
  -- nothing.
  pub update_draft-twice :
      (other : DraftPayload) (later : ℕ)
      → update_draft cipher user id expected other later db'
        ≡ (err (coded draft_version_conflict), db')
  update_draft-twice other later = ground (
    arith,
    update_draft-view,
    update_draft-refused cipher db' user id v update_draft-read expected other later
        (inr (λ same. ground (arith, same, update_draft-view))),
  )

-- The draft as markDraftSent writes it.
abbrev as_sent : SendReceipt → DraftRow → DraftRow
as_sent receipt d = record d {
  status = sent;
  sent_at = some receipt.sent_at;
  message_id = some receipt.message_id;
  version = suc d.version;
  updated_at = receipt.sent_at;
}

module _ (cipher : Cipher) (db db' : Db) (user id : String) (receipt : SendReceipt)
    (v : MailDraftView) (h : mark_draft_sent cipher user id receipt db ≡ (ok v, db')) where
  mark_draft_sent-row :
      (r : DraftRow)
      → find (is_draft user id) db.drafts ≡ some r
      → find (is_draft user id) db'.drafts
        ≡ some (if is_open r.status then as_sent receipt r else r)
  unfolding mark_draft_sent write_sent get_draft
  mark_draft_sent-row r found = ground (
    arith,
    find-update_where (is_draft user id) (is_unsent user id) (as_sent receipt) db.drafts
        (λ x. refl),
    find-holds (is_draft user id) db.drafts r found,
  )

  mark_draft_sent-found : (r : DraftRow) × (find (is_draft user id) db.drafts ≡ some r)
  unfolding mark_draft_sent get_draft
  mark_draft_sent-found = elim (Option-cases (find (is_draft user id) db.drafts)) [
    | inl missing ↦ absurd (ground arith)
    | inr (r, found) ↦ (r, found)
  ]

  mark_draft_sent-read : get_draft cipher user id db' ≡ (ok v, db')
  unfolding mark_draft_sent write_sent
  mark_draft_sent-read = ground arith

  mark_draft_sent-status : v.status ≡ sent
  unfolding get_draft
  mark_draft_sent-status =
      let (r, found) = mark_draft_sent-found in
      ground (arith, mark_draft_sent-read, mark_draft_sent-row r found)

  -- Right after a draft has been marked as sent an edit, whatever version it expects, is refused as
  -- of a draft that was sent, and changes nothing.
  pub mark_draft_sent-update_draft :
      (expected : ℕ) (payload : DraftPayload) (now : ℕ)
      → update_draft cipher user id expected payload now db' ≡ (err (coded draft_already_sent), db')
  mark_draft_sent-update_draft expected payload now = ground (
    arith,
    mark_draft_sent-status,
    update_draft-refused cipher db' user id v mark_draft_sent-read expected payload now
        (inl mark_draft_sent-status),
  )
