-- ===== src/Security/BrandGuard.antt =====
-- src/security/brandGuard.ts: checkBrandContext. A proposed message is matched against the hints of
-- every mailbox, and the brand with the highest score is compared with that of the mailbox in use.
pub mod Strongest
use Prim.Native.String
use Prim.Native.Char.{Char, code}
use mailbridge_mcp.Common.{
  ℕ, ◌+◌, ◌*◌, String, Bool, true, false, not, ◌&&◌, ◌||◌, Option, none, some, List, [], ◌∷◌, ◌++◌,
  str_eq, ◌==◌, ltb, leb, find, length, if◌then◌else◌, Result, ok, err, or_else,
}
use mailbridge_mcp.Common.Maps.{Entry, has_key, put}
use mailbridge_mcp.Common.Text.{unique, trim, is_space, is_empty, after_last_at, includes}
use mailbridge_mcp.Common.Host.{Host}
use mailbridge_mcp.Domain.Errors.{coded, mailbox_not_found}
use mailbridge_mcp.Config.Registry.{MailboxConfig}

pub record BrandContextInput : Type 0 where
  pub mailbox_id : String
  pub organisation_name : String
  pub proposed_sender_email : Option String
  pub subject : Option String

pub data BrandStatus : Type 0 where
  matched warning review_required : BrandStatus

-- `confidence` is in hundredths.
pub record BrandContextResult : Type 0 where
  pub status : BrandStatus
  pub expected_brand : Option String
  pub actual_brand : String
  pub confidence : ℕ
  pub evidence : List String
  pub reason_codes : List String

-- `[^\s>]*`, where no `@` is left.
unfoldable pub is_domain_text : String → Bool
unfolding is_space
is_domain_text String.[] = true
is_domain_text (String.◌∷◌ c s) = not (is_space (code c) || code c == b'>') && is_domain_text s

-- `/@([^@\s>]+)$/`
abbrev pub domain_of : Option (Bool × String) → Option String
domain_of none = none
domain_of (some (before, rest)) =
    if is_empty rest || not (is_domain_text rest) then none else some rest

-- `best` before `later` where the scores are the same, as the sort is stable.
unfoldable pub insert_score : Entry ℕ → List (Entry ℕ) → List (Entry ℕ)
insert_score e [] = e ∷ []
insert_score e (x ∷ xs) = if leb x.value e.value then e ∷ x ∷ xs else x ∷ insert_score e xs

-- `[...candidates.entries()].sort((a, b) => b[1] - a[1])`
unfoldable pub sort_scores : List (Entry ℕ) → List (Entry ℕ)
unfolding insert_score
sort_scores [] = []
sort_scores (x ∷ xs) = insert_score x (sort_scores xs)

abbrev pub score_of : Option (Entry ℕ) → ℕ
score_of none = 0
score_of (some e) = e.value

abbrev pub max : ℕ → ℕ → ℕ
max a b = if leb a b then b else a

abbrev pub or_empty : Option String → String
or_empty none = ""
or_empty (some s) = s

-- The answer where no brand has a score.
abbrev pub no_signal : MailboxConfig → BrandContextResult
no_signal actual = record {
  status = review_required;
  expected_brand = none;
  actual_brand = actual.brand;
  confidence = 35;
  evidence = [];
  reason_codes = "NO_BRAND_SIGNAL" ∷ [];
}

-- What is said of the brands in the order of their scores. An empty brand counts as none.
abbrev pub verdict : MailboxConfig → List String → List (Entry ℕ) → BrandContextResult
verdict actual evidence [] = no_signal actual
verdict actual evidence (first ∷ others) =
    if is_empty first.key
    then no_signal actual
    else if str_eq first.key actual.brand
    then record {
      status = matched;
      expected_brand = some first.key;
      actual_brand = actual.brand;
      confidence = if length others == 0 then 90 else 70;
      evidence = unique evidence;
      reason_codes =
          (if length others == 0 then "BRAND_SIGNAL_MATCH" else "AMBIGUOUS_BRAND_SIGNALS") ∷ [];
    }
    else record {
      status = warning;
      expected_brand = some first.key;
      actual_brand = actual.brand;
      confidence = if length others == 0 then 95 else 75;
      evidence = unique evidence;
      reason_codes =
          (if actual.brand_hints.is_private
            then "PRIVATE_MAILBOX_FOR_COMPANY_CONTEXT"
            else "CROSS_BRAND_SENDER_MISMATCH")
          ∷ [];
    }

-- `normalize` is NFKC and the lower case of the locale `en-US`.
module _ (host : Host) (normalize : String → String) where
  unfoldable pub extract_domain : Option String → Option String
  unfolding after_last_at trim is_domain_text
  extract_domain none = none
  extract_domain (some value) =
      if is_empty value then none else domain_of (after_last_at (host.to_lower_case (trim value)))

  -- Each name hint that matches adds 3 to the score.
  unfoldable pub name_evidence : String → String → List String → List String
  unfolding includes
  name_evidence haystack brand [] = []
  name_evidence haystack brand (name ∷ names) =
      let rest = name_evidence haystack brand names in
      if includes haystack (normalize name)
      then String.◌++◌ "organisation/subject matched a " (String.◌++◌ brand " name hint") ∷ rest
      else rest

  -- Each domain hint that matches adds 4.
  unfoldable pub domain_evidence : Option String → String → List String → List String
  domain_evidence none brand domains = []
  domain_evidence (some sender) brand [] = []
  domain_evidence (some sender) brand (domain ∷ domains) =
      let rest = domain_evidence (some sender) brand domains in
      if str_eq (host.to_lower_case domain) sender
      then String.◌++◌ "proposed sender domain matched " brand ∷ rest
      else rest

  module _ (haystack : String) (sender : Option String) where
    abbrev pub names_of : MailboxConfig → List String
    names_of m = name_evidence haystack m.brand m.brand_hints.organisation_names

    abbrev pub domains_of : MailboxConfig → List String
    domains_of m = domain_evidence sender m.brand m.brand_hints.domains

    abbrev pub score : MailboxConfig → ℕ
    score m = length (names_of m) * 3 + length (domains_of m) * 4

    -- `evidence` after the loop over the mailboxes.
    unfoldable pub evidence_of : List MailboxConfig → List String
    unfolding name_evidence domain_evidence
    evidence_of [] = []
    evidence_of (m ∷ ms) = names_of m ++ (domains_of m ++ evidence_of ms)

    -- `candidates` after the loop.
    unfoldable pub candidates_of : List MailboxConfig → List (Entry ℕ) → List (Entry ℕ)
    unfolding name_evidence domain_evidence put find
    candidates_of [] candidates = candidates
    candidates_of (m ∷ ms) candidates = candidates_of ms (
        if ltb 0 (score m)
        then put m.brand (max (score_of (find (has_key m.brand) candidates)) (score m)) candidates
        else candidates)

  abbrev pub haystack_of : BrandContextInput → String
  haystack_of input =
      normalize (String.◌++◌ input.organisation_name (String.◌++◌ "\n" (or_empty input.subject)))

  unfoldable pub check_brand_context :
      List MailboxConfig → BrandContextInput → Result BrandContextResult
  unfolding find
  check_brand_context mailboxes input =
      let haystack = haystack_of input in
      let sender = extract_domain input.proposed_sender_email in
      elim (find (λ (m : MailboxConfig). str_eq m.id input.mailbox_id) mailboxes) [
        | none ↦ err (coded mailbox_not_found)
        | some actual ↦ ok (
            verdict actual (evidence_of haystack sender mailboxes)
              (sort_scores (candidates_of haystack sender mailboxes [])))
      ]
