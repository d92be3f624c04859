-- ===== src/Tests/BrandRuns.antt =====
-- A run of the brand guard.
use mailbridge_mcp.Common.{
  ◌≡◌, refl, String, none, some, [], ◌∷◌, find, any, update_where, delete_where, ok, ℕ,
}
use mailbridge_mcp.Common.Maps.{Entry, put}
use mailbridge_mcp.Common.Text.{
  includes, unique, trim, trim_start, trim_end, is_space, after_last_at,
}
use mailbridge_mcp.Config.Registry.{MailboxConfig}
use mailbridge_mcp.Security.BrandGuard.{
  BrandContextInput, BrandContextResult, matched, is_domain_text, insert_score, sort_scores,
  extract_domain, name_evidence, domain_evidence, evidence_of, candidates_of, check_brand_context,
}
use mailbridge_mcp.Security.BrandGuard.Strongest.{
  AreAtMost, Has, scored, check_brand_context-strongest,
}
use mailbridge_mcp.Tests.Data.{host, mailbox}

brand_code : Unit {0}
unfolding find any update_where delete_where put unique trim trim_start trim_end is_space
    after_last_at includes is_domain_text insert_score sort_scores extract_domain name_evidence
    domain_evidence evidence_of candidates_of check_brand_context
brand_code = tt

abbrev same_text : String → String
same_text s = s

abbrev hinted : MailboxConfig
hinted =
    let hints = mailbox.brand_hints in
    record mailbox { brand_hints = record hints { domains = "x.org" ∷ [] } }

abbrev input : BrandContextInput
input = record {
  mailbox_id = "m1";
  organisation_name = "X";
  proposed_sender_email = some "a@x.org";
  subject = none;
}

abbrev answer : BrandContextResult
answer = record {
  status = matched;
  expected_brand = some "general";
  actual_brand = "general";
  confidence = 90;
  evidence = "proposed sender domain matched general" ∷ [];
  reason_codes = "BRAND_SIGNAL_MATCH" ∷ [];
}

answers : check_brand_context host same_text (hinted ∷ []) input ≡ ok answer
unfolding brand_code
answers = refl

check_brand_context-strongest_example :
    (first : Entry ℕ) × (first.key ≡ "general")
    × Has first (scored host same_text (hinted ∷ []) input)
    × AreAtMost first.value (scored host same_text (hinted ∷ []) input)
check_brand_context-strongest_example =
    check_brand_context-strongest host same_text (hinted ∷ []) input answer "general" answers refl
