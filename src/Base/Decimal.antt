-- ===== src/Base/Decimal.antt =====
-- Texts as lists of UTF-16 code units, and the decimal notation of `String(n)`.
use Prim.Native.Char.{code}
use Prim.Native.Nat.{ℕ, zero, suc, ◌+◌, ◌-◌, ◌*◌, ◌/◌, ◌%◌, ◌≤◌, ◌<◌}
use Prim.Native.String.{String}
use mathlib.Core.Path.{◌≡◌, refl}
use mathlib.Core.List.{List, [], ◌∷◌, ◌++◌}
use mathlib.Core.Logic.{◌≢◌}
use native.Mathlib.Omega.{arith}
use telegram_hls_streamer_v.Base.Tests.{if◌then◌else◌, ltb, if_elim}
use telegram_hls_streamer_v.Base.Lists.{All, All-append}

abbrev pub CodeUnits : Type 0
CodeUnits = List ℕ

-- The code units of a literal of the source, which is ASCII wherever this is used.
abbrev pub codes : String → CodeUnits
codes String.[] = []
codes (String.◌∷◌ c s) = code c ∷ codes s

show_fuel : ℕ → ℕ → CodeUnits
show_fuel zero n = []
show_fuel (suc f) n =
    let more = show_fuel f (n / 10) in
    if ltb n 10 then (48 + n) ∷ [] else more ++ (48 + n % 10) ∷ []

-- `String(n)`.
unfoldable pub show : ℕ → CodeUnits
unfolding show_fuel
show n = show_fuel (suc n) n

abbrev pub IsDigit : ℕ → Type 0
IsDigit c = (48 ≤ c) × (c ≤ 57)

-- `parseInt(s, 10)` of a text of digits.
abbrev pub read_from : ℕ → CodeUnits → ℕ
read_from acc [] = acc
read_from acc (c ∷ cs) = read_from (acc * 10 + (c - 48)) cs

read_from-append :
    (acc : ℕ) (xs ys : CodeUnits) → read_from acc (xs ++ ys) ≡ read_from (read_from acc xs) ys
read_from-append acc [] ys = refl
read_from-append acc (x ∷ xs) ys = read_from-append (acc * 10 + (x - 48)) xs ys

read_from-show_fuel : (f n : ℕ) → n < f → read_from 0 (show_fuel f n) ≡ n
unfolding show_fuel
read_from-show_fuel zero n h = absurd (omega arith)
read_from-show_fuel (suc f) n h =
    if_elim (λ s. read_from 0 s ≡ n) (ltb n 10) _ _ (λ t. ground arith)
      (λ t.
        rw
          (
            read_from-append 0 (show_fuel f (n / 10)) ((48 + n % 10) ∷ []),
            read_from-show_fuel f (n / 10) (ground arith),
          )
          (omega arith))

pub read_from-show : (n : ℕ) → read_from 0 (show n) ≡ n
unfolding show
read_from-show n = read_from-show_fuel (suc n) n (omega arith)

show_fuel-IsDigit : (f n : ℕ) → All IsDigit (show_fuel f n)
unfolding show_fuel
show_fuel-IsDigit zero n = tt
show_fuel-IsDigit (suc f) n =
    if_elim (All IsDigit) (ltb n 10) _ _ (λ t. (ground arith, tt))
      (λ t.
        All-append IsDigit (show_fuel f (n / 10)) ((48 + n % 10) ∷ [])
          (show_fuel-IsDigit f (n / 10)) (omega arith))

pub show-IsDigit : (n : ℕ) → All IsDigit (show n)
unfolding show
show-IsDigit n = show_fuel-IsDigit (suc n) n

append-ne-nil : (xs : CodeUnits) (y : ℕ) → xs ++ y ∷ [] ≢ []
append-ne-nil [] y = λ e. cc e
append-ne-nil (x ∷ xs) y = λ e. cc e

pub show-ne-nil : (n : ℕ) → show n ≢ []
unfolding show show_fuel
show-ne-nil n =
    if_elim (λ s. s ≢ []) (ltb n 10) _ _ (λ t e. cc e)
      (λ t. append-ne-nil (show_fuel n (n / 10)) (48 + n % 10))
