-- ===== src/Mail/Ids.antt =====
-- What the mail service takes from `StableIdCodec` (src/security/stableId.ts).
use mailbridge_mcp.Common.{ℕ, String, Result}

pub record Locator : Type 0 where
  pub mailbox_id : String
  pub folder_id : String
  pub uid_validity : ℕ
  pub uid : ℕ

pub record Ids : Type 0 where
  pub encode : Locator → String
  pub decode : String → Result Locator
  pub opaque_attachment_id : String → String → String
