-- ===== src/Base/Regex/Laws.antt =====
-- The matcher on texts of a known form: a prefix that cannot start a match, and runs of digits.
use Prim.Native.Nat.{ℕ, ◌+◌, ◌-◌}
use mathlib.Core.Path.{◌≡◌, refl, ap}
use mathlib.Core.Logic.{◌≢◌}
use mathlib.Core.Bool.{Bool, true, false}
use mathlib.Core.List.{List, [], ◌∷◌, ◌++◌}
use mathlib.Core.Option.{Option, none, some}
use native.Mathlib.Omega.{arith}
use telegram_hls_streamer_v.Base.Lists.{length, take, All}
use telegram_hls_streamer_v.Base.Decimal.{CodeUnits, IsDigit}
use telegram_hls_streamer_v.Base.Regex.{
  Re, one, many, seq, Next, many_from, before_rest, match, exec_from, exec, is_digit_unit, digits,
}

-- The text does not go on with such a code unit.
abbrev pub Stops : (ℕ → Bool) → CodeUnits → Type 0
Stops p [] = Unit
Stops p (c ∷ cs) = p c ≡ false

many_from-Stops :
    {A : Type 0} (p : ℕ → Bool) (before : Option ℕ) (rest : CodeUnits) (groups : List CodeUnits)
    (next : Next A)
    → Stops p rest
    → many_from p before rest groups next ≡ next before rest groups
unfolding many_from
many_from-Stops p before [] groups next h = refl
many_from-Stops p before (c ∷ cs) groups next h = rw h refl

-- A greedy run takes all it can, if what follows succeeds.
pub many_from-run :
    {A : Type 0} (p : ℕ → Bool) (before : Option ℕ) (ds rest : CodeUnits) (groups : List CodeUnits)
    (next : Next A) (v : A)
    → All (λ d. p d ≡ true) ds
    → Stops p rest
    → ((b : Option ℕ) → next b rest groups ≡ some v)
    → many_from p before (ds ++ rest) groups next ≡ some v
unfolding many_from
many_from-run p before [] rest groups next v h stop k =
    rw (many_from-Stops p before rest groups next stop) (k before)
many_from-run p before (d ∷ ds) rest groups next v (h, hs) stop k =
    rw (h, many_from-run p (some d) ds rest groups next v hs stop k) refl

length-append : (xs ys : CodeUnits) → length (xs ++ ys) ≡ length xs + length ys
length-append [] ys = omega arith
length-append (x ∷ xs) ys = omega (arith, length-append xs ys)

take-append : (xs ys : CodeUnits) → take (length xs) (xs ++ ys) ≡ xs
take-append [] ys = refl
take-append (x ∷ xs) ys = ap (λ zs. x ∷ zs) (take-append xs ys)

pub before_rest-append : (xs ys : CodeUnits) → before_rest (xs ++ ys) ys ≡ xs
before_rest-append xs ys =
    let n : length (xs ++ ys) - length ys ≡ length xs = omega (arith, length-append xs ys) in
    rw n (take-append xs ys)

digit_units : (ds : CodeUnits) → All IsDigit ds → All (λ d. is_digit_unit d ≡ true) ds
digit_units [] h = tt
digit_units (d ∷ ds) (h, hs) = (ground arith, digit_units ds hs)

-- `(\d+)` at a number takes the whole of it.
pub match-digits :
    {A : Type 0} (before : Option ℕ) (ds rest : CodeUnits) (groups : List CodeUnits) (next : Next A)
    (v : A)
    → All IsDigit ds
    → ds ≢ []
    → Stops is_digit_unit rest
    → ((b : Option ℕ) → next b rest (groups ++ ds ∷ []) ≡ some v)
    → match digits before (ds ++ rest) groups next ≡ some v
unfolding match
match-digits before [] rest groups next v h ne stop k = absurd (ne refl)
match-digits before (d ∷ ds) rest groups next v (h, hs) ne stop k =
    let first : is_digit_unit d ≡ true = ground arith in
    rw first (
      many_from-run is_digit_unit (some d) ds rest groups
        (λ b t g. next b t (g ++ before_rest (d ∷ ds ++ rest) t ∷ [])) v (digit_units ds hs) stop
        (λ b. rw (before_rest-append (d ∷ ds) rest) (k b)))

-- `\d+` without a group.
pub match_run :
    {A : Type 0} (before : Option ℕ) (ds rest : CodeUnits) (groups : List CodeUnits) (next : Next A)
    (v : A)
    → All IsDigit ds
    → ds ≢ []
    → Stops is_digit_unit rest
    → ((b : Option ℕ) → next b rest groups ≡ some v)
    → match (seq (one is_digit_unit) (many is_digit_unit)) before (ds ++ rest) groups next ≡ some v
unfolding match
match_run before [] rest groups next v h ne stop k = absurd (ne refl)
match_run before (d ∷ ds) rest groups next v (h, hs) ne stop k =
    let first : is_digit_unit d ≡ true = ground arith in
    rw first (many_from-run is_digit_unit (some d) ds rest groups next v (digit_units ds hs) stop k)

exec_from_here :
    (re : Re) (before : Option ℕ) (text : CodeUnits) (v : List CodeUnits)
    → match re before text [] (λ b t g. some g) ≡ some v
    → exec_from re before text ≡ some v
unfolding exec_from
exec_from_here re before [] v h = h
exec_from_here re before (c ∷ cs) v h = rw h refl

-- A search passes over what cannot start a match.
exec_from-skip :
    (p : ℕ → Bool) (r : Re) (before : Option ℕ) (pre text : CodeUnits) (v : List CodeUnits)
    → All (λ c. p c ≡ false) pre
    → ((b : Option ℕ) → match (seq (one p) r) b text [] (λ b' t g. some g) ≡ some v)
    → exec_from (seq (one p) r) before (pre ++ text) ≡ some v
unfolding exec_from match
exec_from-skip p r before [] text v h k = exec_from_here (seq (one p) r) before text v (k before)
exec_from-skip p r before (c ∷ cs) text v (h, hs) k =
    rw h (exec_from-skip p r (some c) cs text v hs k)

pub exec-skip :
    (p : ℕ → Bool) (r : Re) (pre text : CodeUnits) (v : List CodeUnits)
    → All (λ c. p c ≡ false) pre
    → ((b : Option ℕ) → match (seq (one p) r) b text [] (λ b' t g. some g) ≡ some v)
    → exec (seq (one p) r) (pre ++ text) ≡ some v
unfolding exec
exec-skip p r pre text v h k = exec_from-skip p r none pre text v h k
