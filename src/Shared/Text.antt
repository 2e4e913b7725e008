-- ===== src/Shared/Text.antt =====
-- Texts as lists of UTF-16 code units, and `String.prototype.trim` and `parseInt` on them.
pub mod Laws
use telegram_hls_streamer_v.Base.{
  ℕ, zero, suc, ◌+◌, ◌-◌, ◌*◌, Bool, true, false, ◌||◌, ◌&&◌, List, ◌++◌, [], ◌∷◌, if◌then◌else◌,
  leb, ◌==◌, Numeric, integer, negative, not_integer, Option, none, some,
}
use telegram_hls_streamer_v.Base.Decimal.{CodeUnits}
use mathlib.Core.List.{reverse}

-- White space and line ends of ECMAScript.
abbrev pub is_space : ℕ → Bool
is_space c =
    (leb 9 c && leb c 13)
    || (c == 32)
    || (c == 160)
    || (c == 5760)
    || (leb 8192 c && leb c 8202)
    || (c == 8232)
    || (c == 8233)
    || (c == 8239)
    || (c == 8287)
    || (c == 12288)
    || (c == 65279)

unfoldable pub trim_start : CodeUnits → CodeUnits
trim_start [] = []
trim_start (c ∷ cs) = if is_space c then trim_start cs else c ∷ cs

unfoldable pub trim : CodeUnits → CodeUnits
unfolding trim_start
trim s = reverse (trim_start (reverse (trim_start s)))

abbrev pub is_digit : ℕ → Bool
is_digit c = leb 48 c && leb c 57

digits_from : ℕ → CodeUnits → ℕ
digits_from n [] = n
digits_from n (c ∷ cs) =
    let more = digits_from (n * 10 + (c - 48)) cs in if is_digit c then more else n

unsigned : CodeUnits → Option ℕ
unsigned [] = none
unsigned (c ∷ cs) = if is_digit c then some (digits_from 0 (c ∷ cs)) else none

abbrev to_numeric : Bool → Option ℕ → Numeric
to_numeric minus none = not_integer
to_numeric false (some n) = integer n
to_numeric true (some zero) = integer 0
to_numeric true (some (suc n)) = negative n

signed : CodeUnits → Numeric
signed [] = not_integer
signed (c ∷ cs) =
    if c == 45
    then to_numeric true (unsigned cs)
    else if c == 43
    then to_numeric false (unsigned cs)
    else to_numeric false (unsigned (c ∷ cs))

-- `parseInt(s, 10)`: `negative n` is -(n + 1), `not_integer` is NaN.
unfoldable pub parse_int : CodeUnits → Numeric
unfolding trim_start digits_from unsigned signed
parse_int s = signed (trim_start s)

abbrev pub is_empty : CodeUnits → Bool
is_empty [] = true
is_empty (c ∷ cs) = false

-- `s.split(c)` of one code unit.
abbrev pub onto_first : ℕ → List CodeUnits → List CodeUnits
onto_first c [] = (c ∷ []) ∷ []
onto_first c (p ∷ ps) = (c ∷ p) ∷ ps

unfoldable pub split_on : ℕ → CodeUnits → List CodeUnits
split_on sep [] = [] ∷ []
split_on sep (c ∷ cs) =
    let rest = split_on sep cs in if c == sep then [] ∷ rest else onto_first c rest

-- `parts.join(c)`.
unfoldable pub join_with : ℕ → List CodeUnits → CodeUnits
join_with sep [] = []
join_with sep (p ∷ []) = p
join_with sep (p ∷ q ∷ qs) = p ++ sep ∷ join_with sep (q ∷ qs)

-- startsWith and the equality of texts.
abbrev pub starts_with : CodeUnits → CodeUnits → Bool
starts_with [] s = true
starts_with (p ∷ ps) [] = false
starts_with (p ∷ ps) (c ∷ cs) = (p == c) && starts_with ps cs

abbrev pub same_text : CodeUnits → CodeUnits → Bool
same_text [] [] = true
same_text (c ∷ cs) (d ∷ ds) = (c == d) && same_text cs ds
same_text _ _ = false

-- `parts.join(sep)` of a text, and `text.includes(part)`.
unfoldable pub join_text : CodeUnits → List CodeUnits → CodeUnits
join_text sep [] = []
join_text sep (p ∷ []) = p
join_text sep (p ∷ q ∷ qs) = p ++ sep ++ join_text sep (q ∷ qs)

unfoldable pub includes : CodeUnits → CodeUnits → Bool
includes [] part = starts_with part []
includes (c ∷ cs) part = let later = includes cs part in starts_with part (c ∷ cs) || later

-- `parts.filter(Boolean)` of texts.
abbrev pub non_empty : List CodeUnits → List CodeUnits
non_empty [] = []
non_empty ([] ∷ ps) = non_empty ps
non_empty ((c ∷ cs) ∷ ps) = (c ∷ cs) ∷ non_empty ps

-- `s.charAt(0).toUpperCase() + s.slice(1)` of a text that starts with an ASCII character.
abbrev pub capitalized : CodeUnits → CodeUnits
capitalized [] = []
capitalized (c ∷ cs) = (if leb 97 c && leb c 122 then c - 32 else c) ∷ cs
