-- ===== src/Common/Text.antt =====
-- Text operations of JavaScript over the code points of a `String`. Lengths count UTF-16 units.
-- The Unicode case table and other data that the program reads from its platform are parameters.
use Prim.Native.Nat.{ℕ, ◌+◌}
use Prim.Native.Char.{Char, code}
use Prim.Native.String.{String}
use mathlib.Core.Bool.{Bool, true, false, not, ◌&&◌, ◌||◌}
use mathlib.Core.Option.{Option, none, some}
use mathlib.Core.List.{List, [], ◌∷◌}
use text.Mathlib.Text.{◌==◌ as str_eq}
use mailbridge_mcp.Common.Tests.{leb, ◌==◌, if◌then◌else◌}
use mailbridge_mcp.Common.Tables.{delete_where}

abbrev pub is_empty : String → Bool
is_empty String.[] = true
is_empty (String.◌∷◌ c s) = false

-- `s.length`
unfoldable pub utf16_length : String → ℕ
utf16_length String.[] = 0
utf16_length (String.◌∷◌ c s) = (if leb 0x10000 (code c) then 2 else 1) + utf16_length s

-- The characters that `trim` removes.
unfoldable pub is_space : ℕ → Bool
is_space c =
    (leb 9 c && leb c 13)
    || (c == 32
        || (c == 0xa0
            || (c == 0x1680
                || ((leb 0x2000 c && leb c 0x200a)
                    || (c == 0x2028
                        || (c == 0x2029
                            || (c == 0x202f || (c == 0x205f || (c == 0x3000 || c == 0xfeff)))))))))

unfoldable pub trim_start : String → String
unfolding is_space
trim_start String.[] = String.[]
trim_start (String.◌∷◌ c s) = if is_space (code c) then trim_start s else String.◌∷◌ c s

unfoldable pub trim_end : String → String
unfolding is_space
trim_end String.[] = String.[]
trim_end (String.◌∷◌ c s) =
    let rest = trim_end s in
    if is_space (code c) && is_empty rest then String.[] else String.◌∷◌ c rest

unfoldable pub trim : String → String
unfolding trim_start trim_end
trim s = trim_end (trim_start s)

-- `/[\r\n]/.test(s)`
unfoldable pub has_line_break : String → Bool
has_line_break String.[] = false
has_line_break (String.◌∷◌ c s) = (code c == 13 || code c == 10) || has_line_break s

-- `[...new Set(values)]`
unfoldable pub unique : List String → List String
unfolding delete_where
unique [] = []
unique (x ∷ xs) = x ∷ delete_where (λ y. str_eq y x) (unique xs)

-- What follows the last `@`, and whether anything stands before it.
abbrev pub split_here : Char → String → Option (Bool × String) → Option (Bool × String)
split_here c s (some (before, rest)) = some (true, rest)
split_here c s none = if code c == b'@' then some (false, s) else none

unfoldable pub after_last_at : String → Option (Bool × String)
after_last_at String.[] = none
after_last_at (String.◌∷◌ c s) = split_here c s (after_last_at s)

-- `[a-z0-9-]`
unfoldable pub is_label_char : ℕ → Bool
is_label_char c = (leb b'a' c && leb c b'z') || ((leb b'0' c && leb c b'9') || c == b'-')

-- `[a-z0-9-]+(?:\.[a-z0-9-]+)+` over a whole text: `inside` says that the label has a character,
-- `dotted` that a dot was seen.
unfoldable pub are_labels : Bool → Bool → String → Bool
unfolding is_label_char
are_labels inside dotted String.[] = inside && dotted
are_labels inside dotted (String.◌∷◌ c s) =
    let next = are_labels false true s in
    let same = are_labels true dotted s in
    if code c == b'.' then inside && next else is_label_char (code c) && same

abbrev pub starts_with_dash : String → Bool
starts_with_dash String.[] = false
starts_with_dash (String.◌∷◌ c s) = code c == b'-'

-- `^(?!.*\.\.)(?!-)[a-z0-9-]+(?:\.[a-z0-9-]+)+$`; two dots in a row leave an empty label.
unfoldable pub is_domain_name : String → Bool
unfolding are_labels
is_domain_name s = not (starts_with_dash s) && are_labels false false s

-- `s.startsWith(part)` and `s.includes(part)`.
abbrev pub starts_with : String → String → Bool
starts_with s String.[] = true
starts_with String.[] (String.◌∷◌ c part) = false
starts_with (String.◌∷◌ d s) (String.◌∷◌ c part) = code d == code c && starts_with s part

unfoldable pub includes : String → String → Bool
includes String.[] part = is_empty part
includes (String.◌∷◌ c s) part = starts_with (String.◌∷◌ c s) part || includes s part

-- `/word/i.test(s)` for a word of small ASCII letters, digits and the like.
abbrev pub is_letter : Char → Char → Bool
is_letter d c =
    code d == code c || ((leb b'A' (code d) && leb (code d) b'Z') && code d + 32 == code c)

abbrev pub starts_with_word : String → String → Bool
starts_with_word s String.[] = true
starts_with_word String.[] (String.◌∷◌ c word) = false
starts_with_word (String.◌∷◌ d s) (String.◌∷◌ c word) = is_letter d c && starts_with_word s word

unfoldable pub has_word : String → String → Bool
has_word String.[] word = is_empty word
has_word (String.◌∷◌ c s) word = starts_with_word (String.◌∷◌ c s) word || has_word s word

-- `/self.signed/.test(s)`: any character but the end of a line may stand between.
abbrev pub after_self : String → Bool
after_self String.[] = false
after_self (String.◌∷◌ c s) =
    not (code c == 10 || (code c == 13 || (code c == 0x2028 || code c == 0x2029)))
    && starts_with s "signed"

abbrev pub is_self_signed_at : String → Bool
is_self_signed_at (String.◌∷◌ a (String.◌∷◌ b (String.◌∷◌ c (String.◌∷◌ d s)))) =
    (code a == b's' && (code b == b'e' && (code c == b'l' && code d == b'f'))) && after_self s
is_self_signed_at _ = false

unfoldable pub has_self_signed : String → Bool
has_self_signed String.[] = false
has_self_signed (String.◌∷◌ c s) = is_self_signed_at (String.◌∷◌ c s) || has_self_signed s

-- `[A-Za-z0-9_-]`
abbrev pub is_word_char : ℕ → Bool
is_word_char c =
    ((leb b'A' c && leb c b'Z') || (leb b'a' c && leb c b'z'))
    || ((leb b'0' c && leb c b'9') || (c == b'_' || c == b'-'))

abbrev pub all_word_chars : String → Bool
all_word_chars String.[] = true
all_word_chars (String.◌∷◌ c s) = is_word_char (code c) && all_word_chars s

-- What is left of a text after a part that it starts with.
abbrev pub without : String → String → Option String
without s String.[] = some s
without String.[] (String.◌∷◌ c part) = none
without (String.◌∷◌ d s) (String.◌∷◌ c part) = if code d == code c then without s part else none
