-- ===== src/Imap/Failures.antt =====
-- src/imap/imapFlowAdapter.ts: classifyImapError and toMailBridgeError. A client call answers or
-- throws an error of the package; a method throws that as a MailBridgeError.
use mailbridge_mcp.Common.{String, Bool, true, false, ◌||◌, if◌then◌else◌, Result, ok, err}
use mailbridge_mcp.Common.Text.{includes, has_word, has_self_signed}
use mailbridge_mcp.Domain.Errors.{Error, Code, mail_bridge, other_code}

-- Of an exception: whether it has the field `authenticationFailed`, its message in small letters, and
-- its code, the empty text where these are missing.
pub record Thrown : Type 0 where
  pub authentication_failed : Bool
  pub message : String
  pub code : String

pub data ImapCategory : Type 0 where
  authentication tls timeout dns connection imap : ImapCategory

unfoldable pub classify_imap_error : Thrown → ImapCategory
unfolding includes has_word has_self_signed
classify_imap_error e =
    if e.authentication_failed
    then authentication
    else if includes e.message "certificate"
        || (includes e.message "tls"
            || (includes e.message "hostname" || has_self_signed e.message))
    then tls
    else if has_word e.code "timeout"
        || (includes e.message "timed out" || includes e.message "timeout")
    then timeout
    else if has_word e.code "enotfound" || has_word e.code "eai_again"
    then dns
    else if has_word e.code "noconnection"
        || (has_word e.code "econnrefused" || has_word e.code "econnreset")
    then connection
    else imap

abbrev pub category_code : ImapCategory → Code
category_code authentication = other_code "AUTHENTICATION_FAILED"
category_code tls = other_code "TLS_VALIDATION_FAILED"
category_code timeout = other_code "TIMEOUT"
category_code dns = other_code "DNS_FAILED"
category_code connection = other_code "CONNECTION_FAILED"
category_code imap = other_code "IMAP_ERROR"

abbrev pub is_retryable : ImapCategory → Bool
is_retryable timeout = true
is_retryable connection = true
is_retryable authentication = false
is_retryable tls = false
is_retryable dns = false
is_retryable imap = false

unfoldable pub to_mail_bridge_error : Thrown → Error
unfolding classify_imap_error
to_mail_bridge_error e =
    let category = classify_imap_error e in
    mail_bridge (category_code category) (is_retryable category)

-- What a call of the client comes to.
pub data Reply (A : Type 0) : Type 0 where
  replied : A → Reply A
  threw : Thrown → Reply A

-- The `catch` around every call.
unfoldable pub caught : {A : Type 0} → Reply A → Result A
unfolding to_mail_bridge_error
caught (replied a) = ok a
caught (threw e) = err (to_mail_bridge_error e)
