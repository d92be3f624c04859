-- ===== src/Mail/Listing/Raw.antt =====
-- The messages of a folder as the adapter answers with them.
use mailbridge_mcp.Mail.Listing.{head, validity_of, Cursor, page_input, differs_from, is_stale}
use mailbridge_mcp.Common.{
  ℕ, suc, ◌≤◌, ◌≡◌, ◌∙◌, ap, refl, String, false, Option, none, some, List, [], ◌∷◌, map, arith,
  any, ltb, length,
}
use mailbridge_mcp.Common.Slices.{take, take-all}
use mailbridge_mcp.Common.Sorting.{sort_by, sort_by-map}
use mailbridge_mcp.Common.Sorting.Numbers.{down, greater}
use mailbridge_mcp.Common.Sorting.Below.{last}
use mailbridge_mcp.Imap.Messages.{FetchMessageObject, RawMessageSummary, to_summary}
use mailbridge_mcp.Imap.Search.{later_uid, results, is_wanted}
use mailbridge_mcp.Mail.Listing.Pages.{any-map_none, select-every, take-map}
use mailbridge_mcp.Mail.Listing.Reader.{cursor_at}

module _ (folder : String) (snippet : Option String → Option String) (uid_validity : ℕ)
    (message : ℕ → FetchMessageObject) (numbered : (uid : ℕ) → (message uid).uid ≡ uid) where
  abbrev pub raw : ℕ → RawMessageSummary
  raw uid = to_summary snippet folder uid_validity (message uid)

  pub raw-uid : (uid : ℕ) → (raw uid).uid ≡ uid
  unfolding to_summary
  raw-uid uid = numbered uid

  pub sort-raw : (xs : List ℕ) → sort_by later_uid (map raw xs) ≡ map raw (down xs)
  sort-raw xs = sort_by-map greater later_uid raw (λ x y i. ltb (raw-uid y i) (raw-uid x i)) xs

  pub results-raw :
      (limit : ℕ) (cursor : Cursor) (answer asked : List ℕ)
      → down answer ≡ asked
      → length asked ≤ suc limit
      → results (page_input folder limit cursor) (map raw answer) ≡ map raw asked
  unfolding results
  results-raw limit cursor answer asked same fits =
      ap (λ xs. take (suc limit) (sort_by later_uid xs))
        (select-every (is_wanted none) (map raw answer) (λ _. refl))
      ∙ (ap (take (suc limit)) (sort-raw answer)
          ∙ (take-map raw (suc limit) (down answer)
              ∙ (ap (λ xs. map raw (take (suc limit) xs)) same
                  ∙ ap (map raw) (take-all (suc limit) asked fits))))

  pub map-raw :
      (us : List ℕ) → map (to_summary snippet folder uid_validity) (map message us) ≡ map raw us
  map-raw [] = refl
  map-raw (u ∷ us) = ap (◌∷◌ (raw u)) (map-raw us)

  pub first_validity :
      (us : List ℕ) (x : ℕ) → last us ≡ some x → validity_of (head (map raw us)) ≡ some uid_validity
  unfolding to_summary
  first_validity [] x e = ground (arith, e)
  first_validity (u ∷ us) x e = refl

  pub same_validity : (uid : ℕ) → differs_from (some uid_validity) (raw uid) ≡ false
  unfolding to_summary
  same_validity uid = ground arith

  pub fresh_raw :
      (before : Option ℕ) (us : List ℕ)
      → is_stale (cursor_at uid_validity before).uid_validity (map raw us) ≡ false
  unfolding any to_summary
  fresh_raw none [] = refl
  fresh_raw (some b) [] = refl
  fresh_raw none (u ∷ us) = ground (
    arith,
    any-map_none raw (differs_from none) (u ∷ us) (λ _. refl),
    any-map_none raw (differs_from (some uid_validity)) (u ∷ us) same_validity,
  )
  fresh_raw (some b) (u ∷ us) =
      ground (arith, any-map_none raw (differs_from (some uid_validity)) (u ∷ us) same_validity)
