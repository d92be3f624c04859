-- ===== src/Tests.antt =====
-- Concrete runs of the model and instances of its theorems.
pub mod Data
mod MailRuns
mod CopyRuns
mod NetworkRuns
mod IdRuns
mod SettingsRuns
mod StoreRuns
mod MailboxRuns
mod SendRuns
mod SecurityRuns
mod BrandRuns
