-- ===== src/Send/Policy.antt =====
-- src/send/safeSendPolicy.ts.
pub mod Verdict
use mailbridge_mcp.Common.{
  ◌≡◌, refl, ℕ, ◌-◌, String, Bool, true, false, not, ◌&&◌, ◌||◌, Option, none, some, List, [], ◌∷◌,
  ◌++◌, str_eq, ltb, leb, any, select, length, if◌then◌else◌, Result, ok, err,
}
use mailbridge_mcp.Common.Text.{is_empty, utf16_length, trim, unique, after_last_at, is_domain_name}
use mailbridge_mcp.Common.Host.{Host}
use mailbridge_mcp.Domain.Errors.{plain}
use mailbridge_mcp.Domain.Types.{
  SendMode, ExternalRecipientPolicy, DraftPayload, SendPolicyView, DraftValidation,
}
use mailbridge_mcp.Store.Policies.{SendUsage}

-- A chain of steps that may throw and keep no state.
infixl 5 ◌>>=◌
abbrev pub ◌>>=◌ : {A B : Type 0} → Result A → (A → Result B) → Result B
ok a >>= f = f a
err e >>= f = err e

pub >>=-eq-ok :
    {A B : Type 0} (r : Result A) (f : A → Result B) {b : B}
    → (r >>= f) ≡ ok b
    → (a : A) × (r ≡ ok a) × (f a ≡ ok b)
>>=-eq-ok (ok a) f h = (a, refl, h)
>>=-eq-ok (err e) f h = cc

abbrev pub map_all : {A B : Type 0} → (A → Result B) → List A → Result (List B)
map_all f [] = ok []
map_all f (x ∷ xs) = do y ← f x; ys ← map_all f xs; ok (y ∷ ys)

abbrev pub member : List String → String → Bool
member xs x = any (λ y. str_eq y x) xs

module _ (host : Host) where
  unfoldable pub canonical_domain : String → Result String
  unfolding is_domain_name trim utf16_length
  canonical_domain value =
      let ascii = host.domain_to_ascii (host.to_lower_case (trim value)) in
      if is_empty ascii || (ltb 253 (utf16_length ascii) || not (is_domain_name ascii))
      then err (plain "Invalid recipient domain")
      else ok ascii

  -- `at <= 0 || at === address.length - 1`
  abbrev domain_part : Option (Bool × String) → Result String
  domain_part none = err (plain "Invalid email address")
  domain_part (some (before, rest)) =
      if not before || is_empty rest
      then err (plain "Invalid email address")
      else canonical_domain rest

  unfoldable pub address_domain : String → Result String
  unfolding canonical_domain after_last_at
  address_domain address = domain_part (after_last_at address)

abbrev pub is_disabled : SendMode → Bool
is_disabled SendMode.disabled = true
is_disabled SendMode.draft_only = false
is_disabled SendMode.direct_allowed = false

abbrev pub is_block : ExternalRecipientPolicy → Bool
is_block ExternalRecipientPolicy.block = true
is_block ExternalRecipientPolicy.warn = false
is_block ExternalRecipientPolicy.allow = false

abbrev pub is_warn : ExternalRecipientPolicy → Bool
is_warn ExternalRecipientPolicy.block = false
is_warn ExternalRecipientPolicy.warn = true
is_warn ExternalRecipientPolicy.allow = false

abbrev pub is_nonempty : List String → Bool
is_nonempty [] = false
is_nonempty (_ ∷ _) = true

-- `if (b) reasons.push(reason);` before the later ones.
abbrev pub when : Bool → String → List String → List String
when b reason later = if b then reason ∷ later else later

unfoldable pub external_count : String → List String → ℕ
unfolding select
external_count own domains = length (select (λ d. not (str_eq d own)) domains)

unfoldable pub block_reasons :
    ℕ → List String → List String → List String → ℕ → SendPolicyView → SendUsage → List String
unfolding any
block_reasons recipients domains allowed denied external policy usage =
    when (is_disabled policy.send_mode) "SEND_POLICY_DISABLED" (
      when (ltb policy.max_recipients recipients) "RECIPIENT_LIMIT_EXCEEDED" (
        when (any (member denied) domains) "RECIPIENT_DOMAIN_DENIED" (
          when (is_nonempty allowed && any (λ d. not (member allowed d)) domains)
            "RECIPIENT_DOMAIN_NOT_ALLOWED"
            (when (ltb 0 external && is_block policy.external_recipients)
              "EXTERNAL_RECIPIENT_BLOCKED"
              (when (leb policy.max_per_hour usage.last_hour) "HOURLY_SEND_LIMIT_EXCEEDED"
                (when (leb policy.max_per_day usage.last_day) "DAILY_SEND_LIMIT_EXCEEDED" []))))))

abbrev pub recipients_of : DraftPayload → List String
recipients_of payload = payload.to ++ (payload.cc ++ payload.bcc)

unfoldable pub evaluate_send_policy :
    Host → String → String → ℕ → DraftPayload → SendPolicyView → SendUsage → Result DraftValidation
evaluate_send_policy host mailbox_email draft_id draft_version payload policy usage = do
  own ← address_domain host mailbox_email
  domains ← map_all (address_domain host) (recipients_of payload)
  allowed ← map_all (canonical_domain host) policy.allowed_domains
  denied ← map_all (canonical_domain host) policy.denied_domains
  let external = external_count own domains
  let recipients = length (recipients_of payload)
  let reasons = block_reasons recipients domains allowed denied external policy usage
  ok (record {
    draft_id = draft_id;
    draft_version = draft_version;
    mailbox_id = payload.mailbox_id;
    policy_version = policy.policy_version;
    blocked = is_nonempty reasons;
    reasons = unique reasons;
    warnings = unique (
        when (ltb 0 external && is_warn policy.external_recipients) "EXTERNAL_RECIPIENT_WARNING"
          []);
    recipient_count = recipients;
    external_recipient_count = external;
    remaining_hour = policy.max_per_hour - usage.last_hour;
    remaining_day = policy.max_per_day - usage.last_day;
  })
