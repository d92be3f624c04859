-- ===== src/Domain.antt =====
-- src/domain/errors.ts and src/app/types.ts: errors and the values that components exchange.
pub mod Errors
pub mod Types
