-- ===== src/Store/Confirmations.antt =====
-- src/app/store.ts: createSendConfirmation and consumeSendConfirmation.
pub mod SingleUse
pub mod Spent
use mailbridge_mcp.Common.{
  ℕ, ◌+◌, ◌*◌, String, Bool, true, false, not, ◌&&◌, ◌||◌, Option, none, some, str_eq, ◌==◌, leb,
  find, update_where, delete_where, count_where, Exec, pure, throw_if, lift, gets, modify, or_throw,
  transaction, ◌>>=◌, ◌>>◌,
}
use mailbridge_mcp.Domain.Errors.{
  coded, send_policy_blocked, draft_already_sent, draft_version_conflict, send_confirmation_invalid,
  send_confirmation_used, send_confirmation_expired, send_confirmation_stale,
}
use mailbridge_mcp.Domain.Types.{DraftValidation, SendConfirmationView}
use mailbridge_mcp.Store.Rows.{
  Db, ConfirmationRow, is_confirmation, of_draft, insert_row, send_audit,
}
use mailbridge_mcp.Store.Cipher.{Cipher}
use mailbridge_mcp.Store.Drafts.{is_open, get_draft}

abbrev pub is_used : Option ℕ → Bool
is_used none = false
is_used (some _) = true

-- WHERE user_key = ? AND confirmation_id = ? AND used_at IS NULL
abbrev pub is_unused : String → String → ConfirmationRow → Bool
is_unused user id row = is_confirmation user id row && not (is_used row.used_at)

module _ (cipher : Cipher) where
  -- `id` is the new identifier, `confirm_` and a random UUID.
  unfoldable pub create_send_confirmation :
      String → String → String → DraftValidation → ℕ → String → ℕ → Exec Db SendConfirmationView
  unfolding get_draft transaction insert_row send_audit
  create_send_confirmation user draft_id payload_hash validation ttl_seconds id now = do
    throw_if validation.blocked (coded send_policy_blocked)
    draft ← get_draft cipher user draft_id
    throw_if (not (is_open draft.status)) (coded draft_already_sent)
    throw_if (not (draft.version == validation.draft_version)) (coded draft_version_conflict)
    let expires_at = now + ttl_seconds * 1000
    transaction (do
      modify (λ db. record db {
        confirmations = delete_where (of_draft user draft_id) db.confirmations;
      })
      confirmations ← gets (λ db. db.confirmations)
      confirmations' ← lift (
          insert_row (is_confirmation user id)
            (record {
              confirmation_id = id;
              user_key = user;
              draft_id = draft_id;
              draft_version = validation.draft_version;
              payload_hash = payload_hash;
              policy_version = validation.policy_version;
              expires_at = expires_at;
              used_at = none;
              created_at = now;
            })
            confirmations)
      modify (λ db. record db { confirmations = confirmations' })
      send_audit user none draft.mailbox_id "SEND_CONFIRMATION_PREPARED" true none
          validation.recipient_count validation.external_recipient_count none now)
    pure (record {
      confirmation_id = id;
      draft_id = draft_id;
      draft_version = validation.draft_version;
      expires_at = expires_at;
      validation = validation;
    })

-- `row.draft_version !== draftVersion || ...`
abbrev pub is_stale : ConfirmationRow → ℕ → String → ℕ → Bool
is_stale row version hash policy =
    not (row.draft_version == version)
    || (not (str_eq row.payload_hash hash) || not (row.policy_version == policy))

unfoldable pub consume_send_confirmation :
    String → String → String → ℕ → String → ℕ → ℕ → Exec Db (Unit {0})
unfolding transaction
consume_send_confirmation user id draft_id draft_version payload_hash policy_version now =
    transaction (do
      found ← gets (λ db. find (is_confirmation user id) db.confirmations)
      row ← or_throw found (coded send_confirmation_invalid)
      throw_if (not (str_eq row.draft_id draft_id)) (coded send_confirmation_invalid)
      throw_if (is_used row.used_at) (coded send_confirmation_used)
      throw_if (leb row.expires_at now) (coded send_confirmation_expired)
      throw_if (is_stale row draft_version payload_hash policy_version)
          (coded send_confirmation_stale)
      changes ← gets (λ db. count_where (is_unused user id) db.confirmations)
      modify (λ db. record db {
        confirmations =
            update_where (is_unused user id) (λ c. record c { used_at = some now })
              db.confirmations;
      })
      throw_if (not (changes == 1)) (coded send_confirmation_used))
