-- ===== src/Mail/Pages.antt =====
-- A client that reads something in pages, each naming the offset of the next one.
use mailbridge_mcp.Common.{
  ℕ, zero, suc, ◌+◌, ◌-◌, ◌≤◌, ◌<◌, ◌≡◌, Option, none, some, List, ◌++◌, arith, ltb, length,
  if◌then◌else◌, Result, ok, err, Bool-cases, inl, inr,
}
use mailbridge_mcp.Common.Slices.{take, drop, take-append-drop, drop-drop, take-all, length-drop}
use mailbridge_mcp.Domain.Errors.{plain}

pub record Page : Type 0 where
  pub bytes : List ℕ
  pub next_offset : Option ℕ

abbrev pub append_to : List ℕ → Result (List ℕ) → Result (List ℕ)
append_to bytes (ok rest) = ok (bytes ++ rest)
append_to bytes (err e) = err e

-- The client follows `next_offset` until there is none.
unfoldable pub read_all : (ℕ → Result Page) → ℕ → ℕ → Result (List ℕ)
read_all fetch zero offset = err (plain "out of fuel")
read_all fetch (suc fuel) offset = elim (fetch offset) [
  | err e ↦ err e
  | ok page ↦ elim page.next_offset [
    | none ↦ ok page.bytes
    | some next ↦ append_to page.bytes (read_all fetch fuel next)
  ]
]

-- The page of `window` bytes at an offset of a content.
abbrev pub page_at : ℕ → List ℕ → ℕ → Page
page_at window content offset = record {
  bytes = take window (drop offset content);
  next_offset = if ltb window (length (drop offset content)) then some (offset + window) else none;
}

module _ (fetch : ℕ → Result Page) (window : ℕ) (content : List ℕ) (some_room : 0 < window)
    (pages : (offset : ℕ)
      → offset ≤ length content
      → fetch offset ≡ ok (page_at window content offset)) where
  read_all-rest :
      (fuel offset : ℕ)
      → offset ≤ length content
      → length content - offset < fuel
      → read_all fetch fuel offset ≡ ok (drop offset content)
  unfolding read_all
  read_all-rest zero offset inside enough = absurd (omega arith)
  read_all-rest (suc fuel) offset inside enough =
      elim (Bool-cases (ltb window (length (drop offset content)))) [
        | inr last ↦
            ground (arith, last, pages offset inside, take-all window (drop offset content))
        | inl more ↦ ground (
          arith,
          more,
          pages offset inside,
          length-drop offset content,
          read_all-rest fuel (offset + window),
          drop-drop window offset content,
          take-append-drop window (drop offset content),
        )
      ]

  pub read_all-content : (fuel : ℕ) → length content < fuel → read_all fetch fuel 0 ≡ ok content
  read_all-content fuel enough = read_all-rest fuel 0 (omega arith) (omega arith)
