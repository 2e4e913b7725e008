-- ===== src/Base/Regex.antt =====
-- Regular expressions of ECMAScript, as far as the client uses them: a backtracking matcher, which
-- tries the alternatives in the order of the language.
pub mod Laws
use Prim.Native.Nat.{ℕ, ◌-◌}
use mathlib.Core.Bool.{Bool, true, false, not, ◌&&◌, ◌||◌}
use mathlib.Core.List.{List, [], ◌∷◌, ◌++◌}
use mathlib.Core.Option.{Option, none, some}
use telegram_hls_streamer_v.Base.Tests.{if◌then◌else◌, leb, ◌==◌}
use telegram_hls_streamer_v.Base.Lists.{length, take}
use telegram_hls_streamer_v.Base.Decimal.{CodeUnits}

-- `many p` is `p*`, and `maybe r` is `r?`, both greedy. Groups are numbered in the order in which they end.
pub data Re : Type 0 where
  one : (ℕ → Bool) → Re
  many : (ℕ → Bool) → Re
  seq : Re → Re → Re
  either : Re → Re → Re
  maybe : Re → Re
  group : Re → Re
  not_before : (ℕ → Bool) → Re
  at_start : Re
  at_end : Re
  boundary : Re

abbrev pub or_else : {A : Type 0} → Option A → Option A → Option A
or_else none b = b
or_else (some a) b = some a

-- `[A-Za-z0-9_]`.
abbrev pub is_word_unit : ℕ → Bool
is_word_unit c =
    (leb 97 c && leb c 122) || (leb 65 c && leb c 90) || (leb 48 c && leb c 57) || (c == 95)

abbrev pub ends_word : Option ℕ → Bool
ends_word none = false
ends_word (some c) = is_word_unit c

abbrev pub starts_word : CodeUnits → Bool
starts_word [] = false
starts_word (c ∷ cs) = is_word_unit c

abbrev differs : Bool → Bool → Bool
differs true b = not b
differs false b = b

-- What goes on after a match: the code unit before, the rest of the text, and the groups so far.
abbrev pub Next : Type 0 → Type 0
Next A = Option ℕ → CodeUnits → List CodeUnits → Option A

unfoldable pub many_from :
    {A : Type 0} → (ℕ → Bool) → Option ℕ → CodeUnits → List CodeUnits → Next A → Option A
many_from p before [] groups next = next before [] groups
many_from p before (c ∷ cs) groups next =
    let longer = many_from p (some c) cs groups next in
    if p c then or_else longer (next before (c ∷ cs) groups) else next before (c ∷ cs) groups

-- The part of a text before one of its ends.
abbrev pub before_rest : CodeUnits → CodeUnits → CodeUnits
before_rest text rest = take (length text - length rest) text

unfoldable pub match : {A : Type 0} → Re → Option ℕ → CodeUnits → List CodeUnits → Next A → Option A
unfolding many_from
match (one p) before [] groups next = none
match (one p) before (c ∷ cs) groups next = if p c then next (some c) cs groups else none
match (many p) before text groups next = many_from p before text groups next
match (seq r s) before text groups next = match r before text groups (λ b t g. match s b t g next)
match (either r s) before text groups next =
    let second = match s before text groups next in or_else (match r before text groups next) second
match (maybe r) before text groups next =
    or_else (match r before text groups next) (next before text groups)
match (group r) before text groups next =
    match r before text groups (λ b t g. next b t (g ++ before_rest text t ∷ []))
match (not_before p) before [] groups next = next before [] groups
match (not_before p) before (c ∷ cs) groups next = if p c then none else next before (c ∷ cs) groups
match at_start none text groups next = next none text groups
match at_start (some c) text groups next = none
match at_end before [] groups next = next before [] groups
match at_end before (c ∷ cs) groups next = none
match boundary before text groups next =
    if differs (ends_word before) (starts_word text) then next before text groups else none

-- `text.match(re)`: the groups of the first place where the expression matches.
unfoldable pub exec_from : Re → Option ℕ → CodeUnits → Option (List CodeUnits)
unfolding match
exec_from re before [] = match re before [] [] (λ b t g. some g)
exec_from re before (c ∷ cs) =
    let later = exec_from re (some c) cs in
    or_else (match re before (c ∷ cs) [] (λ b t g. some g)) later

unfoldable pub exec : Re → CodeUnits → Option (List CodeUnits)
unfolding exec_from
exec re text = exec_from re none text

-- `text.replace(re, '')`: the first match is left out.
unfoldable pub remove_from : Re → Option ℕ → CodeUnits → CodeUnits
unfolding match
remove_from re before [] = []
remove_from re before (c ∷ cs) =
    let later = remove_from re (some c) cs in
    elim (match re before (c ∷ cs) [] (λ b t g. some t)) [ none ↦ c ∷ later | some t ↦ t ]

unfoldable pub remove_first : Re → CodeUnits → CodeUnits
unfolding remove_from
remove_first re text = remove_from re none text

-- A letter of a literal under the flag `i`; the letter is given in lower case.
abbrev pub same_letter : ℕ → ℕ → Bool
same_letter letter c = (c == letter) || (leb 97 letter && leb letter 122 && (c == letter - 32))

unfoldable pub text_ignoring_case : CodeUnits → Re
text_ignoring_case [] = maybe at_start
text_ignoring_case (c ∷ []) = one (same_letter c)
text_ignoring_case (c ∷ d ∷ cs) = seq (one (same_letter c)) (text_ignoring_case (d ∷ cs))

abbrev pub is_digit_unit : ℕ → Bool
is_digit_unit c = leb 48 c && leb c 57

-- `(\d+)`.
abbrev pub digits : Re
digits = group (seq (one is_digit_unit) (many is_digit_unit))
