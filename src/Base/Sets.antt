-- ===== src/Base/Sets.antt =====
-- A JavaScript `Set` of numbers: a list in insertion order that an insertion never makes repeat.
use Prim.Native.Nat.{ℕ}
use mathlib.Core.Path.{◌≡◌, refl}
use mathlib.Core.Bool.{Bool, true, false}
use mathlib.Core.List.{List, [], ◌∷◌, ◌++◌}
use native.Mathlib.Omega.{arith}
use telegram_hls_streamer_v.Base.Tests.{if◌then◌else◌, ◌==◌}

abbrev pub has : List ℕ → ℕ → Bool
has [] i = false
has (x ∷ xs) i = if x == i then true else has xs i

unfoldable pub add : List ℕ → ℕ → List ℕ
add xs i = if has xs i then xs else xs ++ i ∷ []

-- `new Set(items)`.
unfoldable pub set_of : List ℕ → List ℕ → List ℕ
set_of acc [] = acc
set_of acc (x ∷ xs) = set_of (add acc x) xs

abbrev pub IsSetList : List ℕ → Type 0
IsSetList [] = Unit
IsSetList (x ∷ xs) = (has xs x ≡ false) × IsSetList xs

pub has-append : (xs ys : List ℕ) (i : ℕ) → has (xs ++ ys) i ≡ (if has xs i then true else has ys i)
has-append [] ys i = refl
has-append (x ∷ xs) ys i = ground (arith, has-append xs ys i)

pub has-add : (xs : List ℕ) (i j : ℕ) → has (add xs i) j ≡ (if i == j then true else has xs j)
unfolding add
has-add xs i j = ground (arith, has-append xs (i ∷ []) j)

append-IsSetList :
    (xs : List ℕ) (i : ℕ) → IsSetList xs → has xs i ≡ false → IsSetList (xs ++ i ∷ [])
append-IsSetList [] i h k = (refl, tt)
append-IsSetList (x ∷ xs) i (h, hs) k =
    ground (arith, has-append xs (i ∷ []) x, append-IsSetList xs i hs)

pub add-IsSetList : (xs : List ℕ) (i : ℕ) → IsSetList xs → IsSetList (add xs i)
unfolding add
add-IsSetList xs i h = ground (arith, append-IsSetList xs i h)

pub set_of-IsSetList : (acc xs : List ℕ) → IsSetList acc → IsSetList (set_of acc xs)
unfolding set_of
set_of-IsSetList acc [] h = h
set_of-IsSetList acc (x ∷ xs) h = set_of-IsSetList (add acc x) xs (add-IsSetList acc x h)

pub has-set_of :
    (acc xs : List ℕ) (j : ℕ) → has (set_of acc xs) j ≡ (if has acc j then true else has xs j)
unfolding set_of
has-set_of acc [] j = ground arith
has-set_of acc (x ∷ xs) j = ground (arith, has-set_of (add acc x) xs j, has-add acc x j)
