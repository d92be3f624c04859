-- ===== src/Lib.antt =====
-- mailbridge-mcp keeps mailboxes for its users, reads them over IMAP, and sends mail over SMTP under
-- a policy. This library models the part that decides what is sent, and what it rests on (the
-- database, the policy, the send service, and the guards of the settings and of the requests), and
-- the reading of folders, searches, attachments and sources.
--
-- The parts, and the files that model them (paths from the repository's root):
--   Domain/Errors        src/domain/errors.ts: MailBridgeError as a data type of codes; safeError.
--   Domain/Types         src/app/types.ts: the records and enumerations, with the source's names.
--   Config/Registry      src/config/registry.ts, and the mailbox of src/config/schema.ts.
--   Store                src/app/store.ts, MailboxStore: Rows has the tables and the database, and
--                        Policies, Drafts, Confirmations, Operations, Mailboxes and Listings one
--                        function per method. Store/Cipher is what the methods take from src/app/crypto.ts.
--   Send/Policy          src/send/safeSendPolicy.ts.
--   Send/Compose         src/services/mailSendService.ts: #compose and hashPayload.
--   Send/Service         the same file: #validate, prepareDraftSend, #sendOnce and what they share.
--   Send/SendDraft, Send/SendDirect, Send/Requests
--                        the same file: sendDraft, #sendDirect with sendEmail, and the methods that
--                        only check the mailbox and call the store.
--   Security/SettingsSessions, Security/RateLimit, Security/Semaphore
--                        src/app/settingsSessions.ts, src/security/rateLimit.ts and the semaphore of
--                        src/util/concurrency.ts.
--   Admin/Sessions       src/admin/auth.ts: the sessions of AdminSessions.
--   Security/BrandGuard  src/security/brandGuard.ts: checkBrandContext, with hundredths for the
--                        confidence; the normalisation of text is a parameter.
--   Imap                 src/imap/imapFlowAdapter.ts: Failures has classifyImapError and
--                        toMailBridgeError, Parts collectAttachments, Download the loop over the
--                        chunks of a download, Messages #toSummary, Search the search and the
--                        folders, and Adapter the reading of sources and attachments; what the
--                        calls of a client come to is a parameter.
--   Mail                 src/services/mailService.ts: Attachments has fetchAttachment, Source has
--                        fetchRawMessage, Listing listMessagesPage, Fanout searchMessages,
--                        listRecentMessages and #searchFanout, Folders #resolveSearchFolders,
--                        Summaries #summary; Ids is what they take from src/security/stableId.ts.
--   Send/SentCopy        src/send/sentCopy.ts: the loop of save over its attempts, observeExisting and
--                        classifySentCopyError.
--   App/SettingsApi      src/app/settingsApi.ts: authorizeSettings and the routes for enabling, policies
--                        and deletions, over the store and the sessions.
--   Security/StableId    src/security/stableId.ts: StableIdCodec; JSON, base64url and HMAC are a
--                        parameter.
--   Security/NetworkPolicy
--                        src/security/networkPolicy.ts; isIP and the lookup of names are parameters.
--   Common               tables as lists with the statements that touch them, methods that throw,
--                        text, and Host, what the program takes from its platform and packages.
--   Tests                concrete runs, and instances of the theorems below.
--
-- State and errors. A method of an object is a function from its state to a result and its state,
-- and may throw; what it wrote before it threw stays written unless `transaction` restores it. A
-- table is the list of its rows in the order of insertion; a statement selects rows by its WHERE
-- clause, and an INSERT throws where a unique key is taken. The columns that refer to another table
-- are checked by the rows that each method has just read, so an INSERT does not check them again;
-- ON DELETE CASCADE is written out in `delete_mailboxes`.
--
-- Interleaving. The program runs in one thread, and a method gives way only at an `await`. So
-- sendDraft and #sendDirect are two turns each, up to the call of the transport and from its answer
-- on, and Send/AtMostOnce lets the turns of any calls of any users follow each other in any order,
-- with any answer of the transport or none. The world of a send is the database and the list of the
-- messages handed to the transport.
--
-- Arguments. Times, random identifiers and random tokens are arguments of the methods that read them,
-- in their order. Dates are milliseconds. The transport is any function. The host (Common/Host: the
-- case table, IDNA, the grammar of addresses, SHA-256) and the cipher are parameters without laws;
-- that the cipher opens what it has sealed is a hypothesis of the theorems that need it, at the value
-- that they are about.
--
-- Bounds. Numbers are natural numbers; a subtraction that the source cuts off with Math.max(0, ...)
-- stops at 0, and a time less an hour or a day is taken to be no less than 0. Every loop of the source
-- that is modelled is a recursion on a list, a text or the count that bounds it. On fuel runs only
-- the client that asks for page after page (Mail/Pages, Mail/Listing/Reader), for which a round for
-- each byte or message and one more are enough.
--
-- Not modelled: the parsing of messages (src/imap), single messages, threads and knowledge documents
-- (src/services/mailService.ts), replies and the normalisation of attachments in
-- src/services/mailSendService.ts, SMTP (src/send/smtpAdapter.ts), the tool server (src/mcp), HTTP and
-- the pages (src/transport, the rest of src/admin, the other routes of src/app/settingsApi.ts),
-- cross-brand findings, content checks (src/security/content.ts), OAuth (src/auth), loading of
-- configuration, demonstrations and scripts. Deleting a mailbox takes its operations with it, so
-- deletions are not among the steps of Send/AtMostOnce.
pub mod Common
pub mod Domain
pub mod Store
pub mod App
pub mod Config
pub mod Send
pub mod Imap
pub mod Mail
pub mod Security
pub mod Admin
pub mod Tests
