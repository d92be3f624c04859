-- ===== src/Send.antt =====
-- src/send and src/services/mailSendService.ts: composing, checking and submitting mail.
pub mod Policy
pub mod Compose
pub mod Service
pub mod SendDraft
pub mod SendDirect
pub mod Requests
pub mod SentCopy
pub mod AtMostOnce
pub mod Authorised
