-- ===== src/Security/BrandGuard/Strongest.antt =====
-- src/security/brandGuard.ts: which brand checkBrandContext expects.
use mailbridge_mcp.Common.{
  ℕ, ◌≤◌, ◌≡◌, refl, sym, ◌⊎◌, String, Bool, true, false, some, List, [], ◌∷◌, arith, leb, find,
  All, ok, Option-cases, inl, inr, str_eq, if◌then◌else◌,
}
use mathlib.Core.Path.{subst}
use mailbridge_mcp.Common.Maps.{Entry}
use mailbridge_mcp.Common.Host.{Host}
use mailbridge_mcp.Config.Registry.{MailboxConfig}
use mailbridge_mcp.Security.BrandGuard.{
  BrandContextInput, BrandContextResult, insert_score, sort_scores, verdict, candidates_of,
  evidence_of, extract_domain, haystack_of, check_brand_context,
}

-- No score of the list is above `n`.
abbrev pub AreAtMost : ℕ → List (Entry ℕ) → Type 0
AreAtMost n entries = All (λ (e : Entry ℕ). e.value ≤ n) entries

AreAtMost-trans :
    (n m : ℕ) (entries : List (Entry ℕ)) → n ≤ m → AreAtMost n entries → AreAtMost m entries
AreAtMost-trans n m [] h a = tt
AreAtMost-trans n m (x ∷ xs) h (first, rest) =
    (omega (arith, first, h), AreAtMost-trans n m xs h rest)

-- The first of a list has the highest score.
abbrev IsLed : List (Entry ℕ) → Type 0
IsLed [] = Unit
IsLed (x ∷ xs) = AreAtMost x.value xs

-- `e` is one of the list.
abbrev pub Has : Entry ℕ → List (Entry ℕ) → Type 0
Has e [] = ⊥
Has e (x ∷ xs) = (x ≡ e) ⊎ Has e xs

if_cases :
    (P : List (Entry ℕ) → Type 0) (b : Bool) (xs ys : List (Entry ℕ))
    → (b ≡ true → P xs)
    → (b ≡ false → P ys)
    → P (if b then xs else ys)
if_cases P true xs ys f g = f refl
if_cases P false xs ys f g = g refl

insert-AreAtMost :
    (n : ℕ) (e : Entry ℕ) (xs : List (Entry ℕ))
    → e.value ≤ n
    → AreAtMost n xs
    → AreAtMost n (insert_score e xs)
unfolding insert_score
insert-AreAtMost n e [] h a = (h, tt)
insert-AreAtMost n e (x ∷ xs) h (first, rest) =
    if_cases (AreAtMost n) (leb x.value e.value) (e ∷ x ∷ xs) (x ∷ insert_score e xs)
      (λ _. (h, (first, rest))) (λ _. (first, insert-AreAtMost n e xs h rest))

insert-IsLed : (e : Entry ℕ) (xs : List (Entry ℕ)) → IsLed xs → IsLed (insert_score e xs)
unfolding insert_score
insert-IsLed e [] a = tt
insert-IsLed e (x ∷ xs) a =
    if_cases IsLed (leb x.value e.value) (e ∷ x ∷ xs) (x ∷ insert_score e xs)
      (λ b.
        let above : x.value ≤ e.value = ground (arith, b) in
        (above, AreAtMost-trans x.value e.value xs above a))
      (λ b. insert-AreAtMost x.value e xs (ground (arith, b)) a)

sort-IsLed : (xs : List (Entry ℕ)) → IsLed (sort_scores xs)
unfolding sort_scores
sort-IsLed [] = tt
sort-IsLed (x ∷ xs) = insert-IsLed x (sort_scores xs) (sort-IsLed xs)

-- An insertion adds its entry to those of the list, and takes none away.
uninsert :
    (n : ℕ) (e : Entry ℕ) (xs : List (Entry ℕ))
    → AreAtMost n (insert_score e xs)
    → (e.value ≤ n) × AreAtMost n xs
unfolding insert_score
uninsert n e [] a = a
uninsert n e (x ∷ xs) a =
    if_cases (λ l. AreAtMost n l → (e.value ≤ n) × AreAtMost n (x ∷ xs)) (leb x.value e.value)
      (e ∷ x ∷ xs) (x ∷ insert_score e xs) (λ _ b. b)
      (λ _ b. let (h, rest) = uninsert n e xs b.1 in (h, (b.0, rest))) a

unsort : (n : ℕ) (xs : List (Entry ℕ)) → AreAtMost n (sort_scores xs) → AreAtMost n xs
unfolding sort_scores
unsort n [] a = tt
unsort n (x ∷ xs) a = let (h, rest) = uninsert n x (sort_scores xs) a in (h, unsort n xs rest)

insert-Has : (f e : Entry ℕ) (xs : List (Entry ℕ)) → Has f (insert_score e xs) → (e ≡ f) ⊎ Has f xs
unfolding insert_score
insert-Has f e [] h = h
insert-Has f e (x ∷ xs) h =
    if_cases (λ l. Has f l → (e ≡ f) ⊎ Has f (x ∷ xs)) (leb x.value e.value) (e ∷ x ∷ xs)
      (x ∷ insert_score e xs) (λ _ k. k)
      (λ _ k. elim k [
        | inl same ↦ inr (inl same)
        | inr later ↦ elim (insert-Has f e xs later) [ inl new ↦ inl new | inr old ↦ inr (inr old) ]
      ])
      h

sort-Has : (f : Entry ℕ) (xs : List (Entry ℕ)) → Has f (sort_scores xs) → Has f xs
unfolding sort_scores
sort-Has f [] h = h
sort-Has f (x ∷ xs) h = elim (insert-Has f x (sort_scores xs) h) [
  | inl new ↦ inl new
  | inr old ↦ inr (sort-Has f xs old)
]

-- What the answer says when it expects a brand.
verdict-first :
    (actual : MailboxConfig) (evidence : List String) (entries : List (Entry ℕ)) (brand : String)
    → (verdict actual evidence entries).expected_brand ≡ some brand
    → (first : Entry ℕ) × (others : List (Entry ℕ)) × (entries ≡ first ∷ others)
      × (first.key ≡ brand)
verdict-first actual evidence [] brand h = ground (arith, h)
verdict-first actual evidence (first ∷ others) brand h = (first, others, refl, ground (arith, h))

led-AreAtMost :
    (entries : List (Entry ℕ)) (first : Entry ℕ) (others : List (Entry ℕ))
    → sort_scores entries ≡ first ∷ others
    → Has first entries × AreAtMost first.value entries
led-AreAtMost entries first others same =
    let led : IsLed (first ∷ others) = subst IsLed same (sort-IsLed entries) in
    (
      sort-Has first entries (subst (Has first) (sym same) (inl refl)),
      unsort first.value entries (subst (AreAtMost first.value) (sym same) (omega arith, led)),
    )

module _ (host : Host) (normalize : String → String) (mailboxes : List MailboxConfig)
    (input : BrandContextInput) where
  abbrev pub scored : List (Entry ℕ)
  scored =
      candidates_of host normalize (haystack_of host normalize input)
        (extract_domain host normalize input.proposed_sender_email) mailboxes []

  -- The brand that an answer expects is one that the hints have scored, and no brand has scored more.
  pub check_brand_context-strongest :
      (r : BrandContextResult) (brand : String)
      → check_brand_context host normalize mailboxes input ≡ ok r
      → r.expected_brand ≡ some brand
      → (first : Entry ℕ) × (first.key ≡ brand) × Has first scored × AreAtMost first.value scored
  unfolding check_brand_context
  check_brand_context-strongest r brand h expected =
      elim (Option-cases (find (λ (m : MailboxConfig). str_eq m.id input.mailbox_id) mailboxes)) [
        | inl missing ↦ ground (arith, missing, h)
        | inr (actual, found) ↦
            let (first, others, same, key) =
              verdict-first actual
                (evidence_of host normalize (haystack_of host normalize input)
                  (extract_domain host normalize input.proposed_sender_email) mailboxes)
                (sort_scores scored) brand (ground (arith, found, h, expected)) in
            let (has, most) = led-AreAtMost scored first others same in (first, key, has, most)
      ]
