-- ===== src/App.antt =====
-- src/app: the HTTP interface of the settings.
pub mod SettingsApi
