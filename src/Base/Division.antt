-- ===== src/Base/Division.antt =====
-- Quotients by an unknown, and the rounded percentage.
use Prim.Native.Nat.{ℕ, suc, ◌+◌, ◌*◌, ◌/◌, ◌≤◌, ◌<◌}
use mathlib.Core.Logic.{◌↔◌}
use mathlib.Core.Path.{◌≡◌}
use native.Mathlib.Nat.{le-div_iff_mul-le, div-lt_iff_lt-mul}
use native.Mathlib.Omega.{arith}

pub div_unique : (a b q : ℕ) → 0 < b → q * b ≤ a → a < q * b + b → a / b ≡ q
div_unique a b q pos lo hi = omega (
  arith,
  (le-div_iff_mul-le {k = b} {x = q} {y = a} pos).1 lo,
  (div-lt_iff_lt-mul {k = b} {x = a} {y = suc q} pos).1 (omega arith),
)

-- `Math.round(part / whole * 100)`, computed exactly.
unfoldable pub round_percent : ℕ → ℕ → ℕ
round_percent part whole = (200 * part + whole) / (2 * whole)

pub round_percent_self : (n : ℕ) → 0 < n → round_percent n n ≡ 100
unfolding round_percent
round_percent_self n h =
    div_unique (200 * n + n) (2 * n) 100 (omega arith) (omega arith) (omega arith)

pub round_percent-le : (part whole : ℕ) → 0 < whole → part ≤ whole → round_percent part whole ≤ 100
unfolding round_percent
round_percent-le part whole pos h = omega (
  arith,
  (div-lt_iff_lt-mul {k = 2 * whole} {x = 200 * part + whole} {y = 101} (omega arith)).1
      (omega arith),
)

pub round_percent_iff :
    (part whole n : ℕ)
    → 0 < whole
    → (round_percent part whole < n) ↔ (200 * part + whole < n * (2 * whole))
unfolding round_percent
round_percent_iff part whole n pos =
    div-lt_iff_lt-mul {k = 2 * whole} {x = 200 * part + whole} {y = n} (omega arith)

pub round_percent-below :
    (part whole n : ℕ)
    → 0 < whole
    → round_percent part whole < n
    → 200 * part + whole < n * (2 * whole)
unfolding round_percent
round_percent-below part whole n pos h =
    (div-lt_iff_lt-mul {k = 2 * whole} {x = 200 * part + whole} {y = n} (omega arith)).0 h
