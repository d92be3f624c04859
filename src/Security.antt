-- ===== src/Security.antt =====
-- The guards around the service: src/app/settingsSessions.ts, src/security/rateLimit.ts and
-- src/util/concurrency.ts.
pub mod SettingsSessions
pub mod RateLimit
pub mod Semaphore
pub mod BrandGuard
pub mod StableId
pub mod NetworkPolicy
