-- ===== src/Send/AtMostOnce.antt =====
-- src/services/mailSendService.ts: how often a message goes to the transport over the histories of
-- the service, interleaved at its `await`s.
pub mod Sending
pub mod Methods
pub mod Calls
pub mod History
