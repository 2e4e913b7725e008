-- ===== src/Base/Sorting.antt =====
-- `Array.prototype.sort`, the stable sort: by a numeric key, and by a comparison.
use Prim.Native.Nat.{ℕ, ◌≤◌}
use mathlib.Core.List.{List, [], ◌∷◌}
use mathlib.Core.List.{Perm}
use mathlib.Core.List.Perm
use mathlib.Core.Bool.{Bool, true, false}
use mathlib.Core.Path.{◌≡◌}
use native.Mathlib.Omega.{arith}
use telegram_hls_streamer_v.Base.Lists.{All}
use telegram_hls_streamer_v.Base.Tests.{if◌then◌else◌, leb, if_elim}

unfoldable pub insert_by {ℓ} : {A : Type ℓ} → (A → ℕ) → A → List A → List A
insert_by key x [] = x ∷ []
insert_by key x (y ∷ ys) =
    let rest = insert_by key x ys in if leb (key x) (key y) then x ∷ y ∷ ys else y ∷ rest

unfoldable pub sort_by {ℓ} : {A : Type ℓ} → (A → ℕ) → List A → List A
sort_by key [] = []
sort_by key (x ∷ xs) = insert_by key x (sort_by key xs)

-- Every key is at most those after it.
abbrev pub IsSorted {ℓ} : {A : Type ℓ} → (A → ℕ) → List A → Type 0
IsSorted key [] = Unit
IsSorted key (x ∷ []) = Unit
IsSorted key (x ∷ y ∷ ys) = (key x ≤ key y) × IsSorted key (y ∷ ys)

insert_by-IsSorted {ℓ} :
    {A : Type ℓ} (key : A → ℕ) (x : A) (ys : List A)
    → IsSorted key ys
    → IsSorted key (insert_by key x ys)
unfolding insert_by
insert_by-IsSorted key x [] h = tt
insert_by-IsSorted key x (y ∷ []) h =
    if_elim (IsSorted key) (leb (key x) (key y)) _ _ (λ t. (ground arith, tt))
      (λ f. (ground arith, tt))
insert_by-IsSorted key x (y ∷ z ∷ zs) (h, hs) =
    let rest = insert_by-IsSorted key x (z ∷ zs) hs in
    if_elim (IsSorted key) (leb (key x) (key y)) _ _ (λ t. (ground arith, (h, hs)))
      (λ f.
        if_elim (λ w. IsSorted key w → IsSorted key (y ∷ w)) (leb (key x) (key z)) _ _
          (λ t k. (ground arith, k)) (λ g k. (h, k)) rest)

insert_by-All {ℓ} :
    {A : Type ℓ} (P : A → Type 0) (key : A → ℕ) (x : A) (xs : List A)
    → P x
    → All P xs
    → All P (insert_by key x xs)
unfolding insert_by
insert_by-All P key x [] h k = (h, tt)
insert_by-All P key x (y ∷ ys) h (k, ks) =
    if_elim (All P) (leb (key x) (key y)) _ _ (λ t. (h, (k, ks)))
      (λ f. (k, insert_by-All P key x ys h ks))

pub All-sort_by {ℓ} :
    {A : Type ℓ} (P : A → Type 0) (key : A → ℕ) (xs : List A) → All P xs → All P (sort_by key xs)
unfolding sort_by
All-sort_by P key [] h = tt
All-sort_by P key (x ∷ xs) (h, hs) =
    insert_by-All P key x (sort_by key xs) h (All-sort_by P key xs hs)

pub sort_by-IsSorted {ℓ} : {A : Type ℓ} (key : A → ℕ) (xs : List A) → IsSorted key (sort_by key xs)
unfolding sort_by
sort_by-IsSorted key [] = tt
sort_by-IsSorted key (x ∷ xs) = insert_by-IsSorted key x (sort_by key xs) (sort_by-IsSorted key xs)

insert_by-Perm {ℓ} :
    {A : Type ℓ} (key : A → ℕ) (x : A) (ys : List A) → Perm (insert_by key x ys) (x ∷ ys)
unfolding insert_by
insert_by-Perm key x [] = Perm.refl (x ∷ [])
insert_by-Perm key x (y ∷ ys) =
    if_elim (λ w. Perm w (x ∷ y ∷ ys)) (leb (key x) (key y)) _ _ (λ t. Perm.refl (x ∷ y ∷ ys))
      (λ f. Perm.trans (Perm.cons y (insert_by-Perm key x ys)) (Perm.swap x y ys))

pub sort_by-Perm {ℓ} : {A : Type ℓ} (key : A → ℕ) (xs : List A) → Perm (sort_by key xs) xs
unfolding sort_by
sort_by-Perm key [] = Perm.refl []
sort_by-Perm key (x ∷ xs) =
    Perm.trans (insert_by-Perm key x (sort_by key xs)) (Perm.cons x (sort_by-Perm key xs))

-- The same by a comparison: `le x y` is that it gives at most 0.
unfoldable pub insert_with {ℓ} : {A : Type ℓ} → (A → A → Bool) → A → List A → List A
insert_with le x [] = x ∷ []
insert_with le x (y ∷ ys) =
    let rest = insert_with le x ys in if le x y then x ∷ y ∷ ys else y ∷ rest

unfoldable pub sort_with {ℓ} : {A : Type ℓ} → (A → A → Bool) → List A → List A
sort_with le [] = []
sort_with le (x ∷ xs) = insert_with le x (sort_with le xs)

-- Every element stands before the next one by the comparison.
abbrev pub IsOrdered {ℓ} : {A : Type ℓ} → (A → A → Bool) → List A → Type 0
IsOrdered le [] = Unit
IsOrdered le (x ∷ []) = Unit
IsOrdered le (x ∷ y ∷ ys) = (le x y ≡ true) × IsOrdered le (y ∷ ys)

abbrev pub IsTotal {ℓ} : {A : Type ℓ} → (A → A → Bool) → Type ℓ
IsTotal {A} le = (x y : A) → le x y ≡ false → le y x ≡ true

module _ {ℓ} {A : Type ℓ} (le : A → A → Bool) where
  insert_with-IsOrdered :
      (x : A) (ys : List A) → IsTotal le → IsOrdered le ys → IsOrdered le (insert_with le x ys)
  unfolding insert_with
  insert_with-IsOrdered x [] total h = tt
  insert_with-IsOrdered x (y ∷ []) total h =
      if_elim (IsOrdered le) (le x y) _ _ (λ t. (t, tt)) (λ t. (total x y t, tt))
  insert_with-IsOrdered x (y ∷ z ∷ zs) total (h, hs) =
      let rest = insert_with-IsOrdered x (z ∷ zs) total hs in
      if_elim (IsOrdered le) (le x y) _ _ (λ t. (t, (h, hs)))
        (λ t.
          if_elim (λ w. IsOrdered le w → IsOrdered le (y ∷ w)) (le x z) _ _
            (λ u k. (total x y t, k)) (λ u k. (h, k)) rest)

  pub sort_with-IsOrdered : (xs : List A) → IsTotal le → IsOrdered le (sort_with le xs)
  unfolding sort_with
  sort_with-IsOrdered [] total = tt
  sort_with-IsOrdered (x ∷ xs) total =
      insert_with-IsOrdered x (sort_with le xs) total (sort_with-IsOrdered xs total)

  insert_with-Perm : (x : A) (ys : List A) → Perm (insert_with le x ys) (x ∷ ys)
  unfolding insert_with
  insert_with-Perm x [] = Perm.refl (x ∷ [])
  insert_with-Perm x (y ∷ ys) =
      if_elim (λ w. Perm w (x ∷ y ∷ ys)) (le x y) _ _ (λ t. Perm.refl (x ∷ y ∷ ys))
        (λ t. Perm.trans (Perm.cons y (insert_with-Perm x ys)) (Perm.swap x y ys))

  pub sort_with-Perm : (xs : List A) → Perm (sort_with le xs) xs
  unfolding sort_with
  sort_with-Perm [] = Perm.refl []
  sort_with-Perm (x ∷ xs) =
      Perm.trans (insert_with-Perm x (sort_with le xs)) (Perm.cons x (sort_with-Perm xs))

insert_with-All {ℓ} :
    {A : Type ℓ} (P : A → Type 0) (le : A → A → Bool) (x : A) (xs : List A)
    → P x
    → All P xs
    → All P (insert_with le x xs)
unfolding insert_with
insert_with-All P le x [] h k = (h, tt)
insert_with-All P le x (y ∷ ys) h (k, ks) =
    if_elim (All P) (le x y) _ _ (λ t. (h, (k, ks))) (λ f. (k, insert_with-All P le x ys h ks))

pub All-sort_with {ℓ} :
    {A : Type ℓ} (P : A → Type 0) (le : A → A → Bool) (xs : List A)
    → All P xs
    → All P (sort_with le xs)
unfolding sort_with
All-sort_with P le [] h = tt
All-sort_with P le (x ∷ xs) (h, hs) =
    insert_with-All P le x (sort_with le xs) h (All-sort_with P le xs hs)
