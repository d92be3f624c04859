-- ===== src/Send/Policy/Verdict.antt =====
-- When a message is blocked, said of the domains of its recipients.
use mathlib.Core.Path.{subst}
use mailbridge_mcp.Common.{
  ap, sym, ℕ, ◌<◌, ◌≤◌, ◌≡◌, ◌≢◌, ◌⊎◌, ◌↔◌, refl, String, Bool, true, false, not, ◌&&◌, List, [],
  ◌∷◌, arith, ltb, leb, eq_iff, any, All, Result, ok, err, length,
}
use mailbridge_mcp.Common.Host.{Host}
use mailbridge_mcp.Domain.Types.{
  SendMode, ExternalRecipientPolicy, SendPolicyView, DraftPayload, DraftValidation,
}
use mailbridge_mcp.Store.Policies.{SendUsage}
use mailbridge_mcp.Send.Policy.{
  >>=-eq-ok, member, map_all, external_count, block_reasons, evaluate_send_policy, address_domain,
  canonical_domain, recipients_of, is_disabled, is_block, is_nonempty,
}

-- `x` is one of the list.
abbrev pub In : String → List String → Type 0
In x [] = ⊥
In x (y ∷ ys) = (y ≡ x) ⊎ In x ys

member-In : (xs : List String) (x : String) → (member xs x ≡ true) ↔ In x xs
unfolding any
member-In [] x = (λ h. cc, λ h. absurd h)
member-In (y ∷ ys) x = ground (arith, member-In ys x, eq_iff y x)

any_denied :
    (denied domains : List String)
    → (any (member denied) domains ≡ false) ↔ All (λ d. ¬ In d denied) domains
unfolding any
any_denied denied [] = (λ h. tt, λ h. refl)
any_denied denied (d ∷ ds) = ground (arith, any_denied denied ds, member-In denied d)

any_outside :
    (allowed domains : List String)
    → (any (λ d. not (member allowed d)) domains ≡ false) ↔ All (λ d. In d allowed) domains
unfolding any
any_outside allowed [] = (λ h. tt, λ h. refl)
any_outside allowed (d ∷ ds) = ground (arith, any_outside allowed ds, member-In allowed d)

external-zero :
    (own : String) (domains : List String)
    → (ltb 0 (external_count own domains) ≡ false) ↔ All (λ d. d ≡ own) domains
unfolding external_count
external-zero own [] = (λ h. tt, λ h. refl)
external-zero own (d ∷ ds) = ground (arith, external-zero own ds, eq_iff d own)

-- What the policy of a mailbox asks of a message: `own` is the domain of the mailbox, `domains`
-- those of the recipients.
pub record IsPermitted (own : String) (domains allowed denied : List String) (recipients : ℕ)
    (policy : SendPolicyView) (usage : SendUsage) : Type 0 where
  pub on : policy.send_mode ≢ SendMode.disabled
  pub few : recipients ≤ policy.max_recipients
  pub none_denied : All (λ d. ¬ In d denied) domains
  pub all_allowed : (allowed ≡ []) ⊎ All (λ d. In d allowed) domains
  pub within :
      (policy.external_recipients ≢ ExternalRecipientPolicy.block) ⊎ All (λ d. d ≡ own) domains
  pub hourly : usage.last_hour < policy.max_per_hour
  pub daily : usage.last_day < policy.max_per_day

module _ (own : String) (domains allowed denied : List String) (recipients : ℕ)
    (policy : SendPolicyView) (usage : SendUsage) where
  reasons : List String
  unfolding block_reasons
  reasons =
      block_reasons recipients domains allowed denied (external_count own domains) policy usage

  -- The tests that block_reasons makes, all failed.
  abbrev Clear : Type 0
  Clear =
      (is_disabled policy.send_mode ≡ false)
      × (ltb policy.max_recipients recipients ≡ false)
      × (any (member denied) domains ≡ false)
      × ((is_nonempty allowed && any (λ d. not (member allowed d)) domains) ≡ false)
      × ((ltb 0 (external_count own domains) && is_block policy.external_recipients) ≡ false)
      × (leb policy.max_per_hour usage.last_hour ≡ false)
      × (leb policy.max_per_day usage.last_day ≡ false)

  reasons-Clear : (is_nonempty reasons ≡ false) ↔ Clear
  unfolding reasons
  reasons-Clear = ground arith

  Clear-IsPermitted : Clear → IsPermitted own domains allowed denied recipients policy usage
  Clear-IsPermitted (a, b, c, d, e, f, g) = record {
    on = ground arith;
    few = ground arith;
    none_denied = (any_denied denied domains).0 c;
    all_allowed = ground (arith, any_outside allowed domains);
    within = ground (arith, external-zero own domains);
    hourly = ground arith;
    daily = ground arith;
  }

  IsPermitted-Clear : IsPermitted own domains allowed denied recipients policy usage → Clear
  IsPermitted-Clear p = (
    ground arith,
    ground arith,
    (any_denied denied domains).1 p.none_denied,
    ground (arith, any_outside allowed domains),
    ground (arith, external-zero own domains),
    ground arith,
    ground arith,
  )

  -- The reasons are none exactly when the policy is met.
  pub reasons-IsPermitted :
      (is_nonempty (
          block_reasons recipients domains allowed denied (external_count own domains) policy usage)
        ≡ false)
      ↔ IsPermitted own domains allowed denied recipients policy usage
  unfolding reasons
  reasons-IsPermitted =
      (λ h. Clear-IsPermitted (reasons-Clear.0 h), λ p. reasons-Clear.1 (IsPermitted-Clear p))

abbrev blocked_of : Result DraftValidation → Bool
blocked_of (ok v) = v.blocked
blocked_of (err e) = true

abbrev count_of : Result DraftValidation → ℕ
count_of (ok v) = v.recipient_count
count_of (err e) = 0

module _ (host : Host) (email draft_id : String) (version : ℕ) (payload : DraftPayload)
    (policy : SendPolicyView) (usage : SendUsage) where
  -- The domains that a validation compares, and its verdict on them.
  pub record IsJudged (v : DraftValidation) : Type 0 where
    pub own : String
    pub domains : List String
    pub allowed : List String
    pub denied : List String
    pub own_read : address_domain host email ≡ ok own
    pub domains_read : map_all (address_domain host) (recipients_of payload) ≡ ok domains
    pub allowed_read : map_all (canonical_domain host) policy.allowed_domains ≡ ok allowed
    pub denied_read : map_all (canonical_domain host) policy.denied_domains ≡ ok denied
    pub counted : v.recipient_count ≡ length (recipients_of payload)
    pub verdict :
        (v.blocked ≡ false)
        ↔ IsPermitted own domains allowed denied (length (recipients_of payload)) policy usage

  -- A message passes validation exactly when the policy of the mailbox permits it: sending is on,
  -- the recipients are few enough, none of their domains is denied and all are on the list of
  -- allowed ones if there is one, none is external if those are blocked, and both rates leave room.
  pub evaluate-IsJudged :
      (v : DraftValidation)
      → evaluate_send_policy host email draft_id version payload policy usage ≡ ok v
      → IsJudged v
  unfolding evaluate_send_policy
  evaluate-IsJudged v h =
      let (own, own_read, h₁) = >>=-eq-ok (address_domain host email) _ h in
      let (domains, domains_read, h₂) =
        >>=-eq-ok (map_all (address_domain host) (recipients_of payload)) _ h₁ in
      let (allowed, allowed_read, h₃) =
        >>=-eq-ok (map_all (canonical_domain host) policy.allowed_domains) _ h₂ in
      let (denied, denied_read, h₄) =
        >>=-eq-ok (map_all (canonical_domain host) policy.denied_domains) _ h₃ in
      let recipients = length (recipients_of payload) in
      let blocked = ap blocked_of h₄ in
      record {
        own = own;
        domains = domains;
        allowed = allowed;
        denied = denied;
        own_read = own_read;
        domains_read = domains_read;
        allowed_read = allowed_read;
        denied_read = denied_read;
        counted = sym (ap count_of h₄);
        verdict =
            subst
              (λ b. (b ≡ false) ↔ IsPermitted own domains allowed denied recipients policy usage)
              blocked (reasons-IsPermitted own domains allowed denied recipients policy usage);
      }
