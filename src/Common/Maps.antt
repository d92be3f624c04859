-- ===== src/Common/Maps.antt =====
-- `Map` of the source: the entries in the order of insertion, keyed by strings.
use mathlib.Core.Path.{◌≡◌, refl}
use mathlib.Core.Logic.{inl, inr}
use mathlib.Core.Bool.{Bool}
use mathlib.Core.Option.{some}
use mathlib.Core.List.{List, [], ◌∷◌, ◌++◌}
use Prim.Native.String.{String}
use native.Mathlib.Omega.{arith}
use text.Mathlib.Text.{◌==◌ as str_eq}
use text.Mathlib.TextEquality.{eq_iff}
use mailbridge_mcp.Common.Tests.{if◌then◌else◌, Option-cases}
use mailbridge_mcp.Common.Tables.{
  find, any, update_where, find-append, find-holds, find-update_where, find-none-any, find-some-any,
}

pub record Entry (A : Type 0) : Type 0 where
  pub key : String
  pub value : A

module _ {A : Type 0} where
  abbrev pub has_key : String → Entry A → Bool
  has_key key entry = str_eq entry.key key

  -- `Map.set`: the value of a key that is there is overwritten where it stands.
  unfoldable pub put : String → A → List (Entry A) → List (Entry A)
  unfolding any update_where
  put key value entries =
      if any (has_key key) entries
      then update_where (has_key key) (λ e. record e { value = value }) entries
      else entries ++ record { key = key; value = value } ∷ []

  pub find-put :
      (key : String) (value : A) (entries : List (Entry A))
      → find (has_key key) (put key value entries) ≡ some (record { key = key; value = value })
  unfolding put find
  find-put key value entries = elim (Option-cases (find (has_key key) entries)) [
    | inl missing ↦ ground (
      arith,
      missing,
      eq_iff key key,
      find-none-any (has_key key) entries,
      find-append (has_key key) entries (record { key = key; value = value } ∷ []),
    )
    | inr (e, found) ↦ ground (
      arith,
      found,
      eq_iff e.key key,
      find-holds (has_key key) entries e found,
      find-some-any (has_key key) entries e,
      find-update_where (has_key key) (has_key key) (λ (x : Entry A). record x { value = value })
          entries (λ x. refl),
    )
  ]
