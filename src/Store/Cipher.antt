-- ===== src/Store/Cipher.antt =====
-- What the store needs of `CredentialEnvelopeCipher` (src/app/crypto.ts): an envelope for each kind
-- of value, made for a user and a row and opened for them. That opening gives back what was sealed
-- is a hypothesis where it is needed.
use mailbridge_mcp.Common.{String, Result}
use mailbridge_mcp.Domain.Types.{
  MailboxCredentials, StoredCredentialEnvelope, DraftPayload, SendReceipt,
}

pub record Cipher : Type 0 where
  pub encrypt : String → String → MailboxCredentials → StoredCredentialEnvelope
  pub decrypt : String → String → StoredCredentialEnvelope → Result MailboxCredentials
  pub encrypt_draft : String → String → DraftPayload → StoredCredentialEnvelope
  pub decrypt_draft : String → String → StoredCredentialEnvelope → Result DraftPayload
  pub encrypt_receipt : String → String → SendReceipt → StoredCredentialEnvelope
  pub decrypt_receipt : String → String → StoredCredentialEnvelope → Result SendReceipt
