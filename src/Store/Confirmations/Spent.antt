-- ===== src/Store/Confirmations/Spent.antt =====
-- Sequences of calls after a confirmation is consumed.
use mailbridge_mcp.Common.{◌++◌, Result}
use mailbridge_mcp.Common.{ℕ, ◌≡◌, ◌⊎◌, String, false, List, [], ◌∷◌, any, err}
use mailbridge_mcp.Domain.Errors.{coded, send_confirmation_used, send_confirmation_invalid}
use mailbridge_mcp.Domain.Types.{DraftPayload, DraftValidation, SendPolicyInput}
use mailbridge_mcp.Store.Rows.{Db}
use mailbridge_mcp.Store.Cipher.{Cipher}
use mailbridge_mcp.Store.Drafts.{update_draft}
use mailbridge_mcp.Store.Policies.{set_send_policy}
use mailbridge_mcp.Store.Mailboxes.Removal.{delete_mailbox, delete_all}
use mailbridge_mcp.Common.Keeps.{Keeps}
use mailbridge_mcp.Store.Confirmations.{
  is_unused, create_send_confirmation, consume_send_confirmation,
}

-- A call of a method that writes confirmations, with any arguments, whether it returns or throws,
-- or of one that leaves that table alone. The index is the identifier that a call makes up.
pub data ConfirmationStep : List String → Db → Db → Type 0 where
  prepares :
      (cipher : Cipher) (user draft_id hash : String) (validation : DraftValidation) (ttl : ℕ)
      (id : String) (now : ℕ) (db : Db)
      → ConfirmationStep
          (id ∷ [])
          db
          (create_send_confirmation cipher user draft_id hash validation ttl id now db).1
  consumes :
      (user id draft_id : String) (version : ℕ) (hash : String) (policy now : ℕ) (db : Db)
      → ConfirmationStep [] db
          (consume_send_confirmation user id draft_id version hash policy now db).1
  edits :
      (cipher : Cipher) (user draft_id : String) (expected : ℕ) (payload : DraftPayload) (now : ℕ)
      (db : Db)
      → ConfirmationStep [] db (update_draft cipher user draft_id expected payload now db).1
  restricts :
      (user mailbox : String) (input : SendPolicyInput) (now : ℕ) (db : Db)
      → ConfirmationStep [] db (set_send_policy user mailbox input now db).1
  deletes :
      (user mailbox : String) (now : ℕ) (db : Db)
      → ConfirmationStep [] db (delete_mailbox user mailbox now db).1
  clears : (user : String) (db : Db) → ConfirmationStep [] db (delete_all user db).1
  elsewhere : (db e : Db) → e.confirmations ≡ db.confirmations → ConfirmationStep [] db e

-- A sequence of such calls, with the identifiers that they make up.
pub data ConfirmationHistory : List String → Db → Db → Type 0 where
  start : {db : Db} → ConfirmationHistory [] db db
  next :
      (now before : List String) {d : Db} (e f : Db)
      → ConfirmationHistory before d e
      → ConfirmationStep now e f
      → ConfirmationHistory (now ++ before) d f

-- A call has thrown one of the two codes and left the database as it was.
abbrev pub IsRefused : Result (Unit {0}) × Db → Db → Type 0
IsRefused answer db =
    (answer ≡ (err (coded send_confirmation_used), db))
    ⊎ (answer ≡ (err (coded send_confirmation_invalid), db))

module _ (user id : String) where
  -- The confirmation has been consumed, or is gone.
  abbrev pub IsSpent : Db → Type 0
  IsSpent db = any (is_unused user id) db.confirmations ≡ false
