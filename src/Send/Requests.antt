-- ===== src/Send/Requests.antt =====
-- src/services/mailSendService.ts: the methods that check the mailbox and call the store.
use mailbridge_mcp.Common.{true, ℕ, String, List, Exec, lift, ◌>>=◌}
use mailbridge_mcp.Domain.Types.{MailDraftView, SendPolicyInput, SendPolicyView}
use mailbridge_mcp.Config.Registry.{get_mailbox}
use mailbridge_mcp.Store.Rows.{Db}
use mailbridge_mcp.Store.Policies.{set_send_policy}
use mailbridge_mcp.Store.Drafts.{create_draft, remove_draft_attachment}
use mailbridge_mcp.Store.Operations.{SendOperationView, get_send_operation}
use mailbridge_mcp.Store.Listings.{SendAuditEventView, list_send_audit}
use mailbridge_mcp.Send.Compose.{ComposeInput, compose}
use mailbridge_mcp.Send.Service.{Service}

module _ (service : Service) where
  open service use {host, cipher, user, mailboxes}

  -- createDraft
  unfoldable pub compose_draft : ComposeInput → String → ℕ → Exec Db MailDraftView
  compose_draft input id now = do
    payload ← lift (compose host mailboxes input)
    create_draft cipher user payload id now

  -- removeDraftAttachment
  unfoldable pub detach : String → ℕ → String → ℕ → ℕ → Exec Db MailDraftView
  detach draft_id expected attachment_id now later =
      remove_draft_attachment cipher user draft_id expected attachment_id now later

  unfoldable pub update_send_policy : String → SendPolicyInput → ℕ → Exec Db SendPolicyView
  update_send_policy mailbox_id input now = do
    _ ← lift (get_mailbox mailboxes mailbox_id true)
    set_send_policy user mailbox_id input now

  unfoldable pub get_send_status : String → Exec Db SendOperationView
  get_send_status operation_id = get_send_operation user operation_id

  unfoldable pub list_audit : ℕ → Exec Db (List SendAuditEventView)
  list_audit limit = list_send_audit user limit
