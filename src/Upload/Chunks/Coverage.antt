-- ===== src/Upload/Chunks/Coverage.antt =====
-- What the server has and what is missing make up the file.
use telegram_hls_streamer_v.Base.{
  ℕ, zero, suc, ◌+◌, ◌≤◌, ◌<◌, min, ◌≡◌, refl, ◌∙◌, Bool, true, false, List, [], ◌∷◌, arith,
  if◌then◌else◌, has, IsSetList, All, set_of-IsSetList, has-set_of, ltb, leb, ◌==◌, none, some,
  Numeric, integer, negative, not_integer, or_default, ◌&&◌, get_elem?, Option-cases, Bool-cases,
  inl, inr, not,
}
use telegram_hls_streamer_v.Upload.Chunks.{
  UploadStatus, valid_indices, indices_from, received_set_from_status, missing_from, missing_chunks,
}

-- An index is listed by the server, as a whole number.
abbrev pub lists : List Numeric → ℕ → Bool
lists [] j = false
lists (integer i ∷ is) j = if i == j then true else lists is j
lists (negative n ∷ is) j = lists is j
lists (not_integer ∷ is) j = lists is j

has-valid_indices :
    (total : ℕ) (is : List Numeric) (j : ℕ)
    → has (valid_indices total is) j ≡ ltb j total && lists is j
unfolding valid_indices
has-valid_indices total [] j = ground arith
has-valid_indices total (integer i ∷ is) j = ground (arith, has-valid_indices total is j)
has-valid_indices total (negative n ∷ is) j = has-valid_indices total is j
has-valid_indices total (not_integer ∷ is) j = has-valid_indices total is j

has-indices_from : (i n j : ℕ) → has (indices_from i n) j ≡ leb i j && ltb j (i + n)
unfolding indices_from
has-indices_from i zero j = ground arith
has-indices_from i (suc n) j = ground (arith, has-indices_from (suc i) n j)

-- What the status reply says of chunk `j`.
abbrev pub reported : UploadStatus → ℕ → ℕ → Bool
reported s fallback j = elim s.received_indices [
  | some is ↦ lists is j
  | none ↦ ltb j (or_default s.received_chunks fallback)
]

pub has-received_set_from_status :
    (s : UploadStatus) (total fallback j : ℕ)
    → has (received_set_from_status s total fallback) j ≡ ltb j total && reported s fallback j
unfolding received_set_from_status
has-received_set_from_status s total fallback j = elim (Option-cases s.received_indices) [
  | inr (is, e) ↦
      rw (e, received_set_from_status)
        (has-set_of [] (valid_indices total is) j ∙ has-valid_indices total is j)
  | inl e ↦
      rw (e, received_set_from_status)
        (has-set_of [] (indices_from 0 (min n total)) j
          ∙ has-indices_from 0 (min n total) j
          ∙ ground arith)
]
  where
    n : ℕ
    n = or_default s.received_chunks fallback

pub received_set_from_status-IsSetList :
    (s : UploadStatus) (total fallback : ℕ) → IsSetList (received_set_from_status s total fallback)
unfolding received_set_from_status
received_set_from_status-IsSetList s total fallback = elim (Option-cases s.received_indices) [
  | inr (is, e) ↦ rw (e, received_set_from_status) (set_of-IsSetList [] (valid_indices total is) tt)
  | inl e ↦
      rw (e, received_set_from_status)
        (set_of-IsSetList [] (indices_from 0 (min (or_default s.received_chunks fallback) total))
          tt)
]

has-missing_from :
    (i n : ℕ) (rs : List ℕ) (j : ℕ)
    → has (missing_from i n rs) j ≡ (leb i j && ltb j (i + n)) && not (has rs j)
unfolding missing_from
has-missing_from i zero rs j = ground arith
has-missing_from i (suc n) rs j = ground (arith, has-missing_from (suc i) n rs j)

-- The chunks to send are the chunks of the file that the server does not have.
pub has-missing_chunks :
    (total : ℕ) (rs : List ℕ) (j : ℕ)
    → has (missing_chunks total rs) j ≡ ltb j total && not (has rs j)
unfolding missing_chunks
has-missing_chunks total rs j = has-missing_from 0 total rs j ∙ ground arith

-- The list of missing chunks is strictly increasing.
abbrev pub IsIncreasing : ℕ → List ℕ → Type 0
IsIncreasing i [] = Unit
IsIncreasing i (x ∷ xs) = (i ≤ x) × IsIncreasing (suc x) xs

IsIncreasing-weaken : (i j : ℕ) (xs : List ℕ) → i ≤ j → IsIncreasing j xs → IsIncreasing i xs
IsIncreasing-weaken i j [] h k = tt
IsIncreasing-weaken i j (x ∷ xs) h (k, ks) = (omega arith, ks)

missing_from-IsIncreasing : (i n : ℕ) (rs : List ℕ) → IsIncreasing i (missing_from i n rs)
unfolding missing_from
missing_from-IsIncreasing i zero rs = tt
missing_from-IsIncreasing i (suc n) rs = elim (Bool-cases (has rs i)) [
  | inl e ↦
      rw e (IsIncreasing-weaken i (suc i) _ (omega arith) (missing_from-IsIncreasing (suc i) n rs))
  | inr e ↦ rw e (omega arith, missing_from-IsIncreasing (suc i) n rs)
]

pub missing_chunks-IsIncreasing :
    (total : ℕ) (rs : List ℕ) → IsIncreasing 0 (missing_chunks total rs)
unfolding missing_chunks
missing_chunks-IsIncreasing total rs = missing_from-IsIncreasing 0 total rs

-- Membership by test, as a position.
pub get_of_has : (xs : List ℕ) (i : ℕ) → has xs i ≡ true → (j : ℕ) × (get_elem? xs j ≡ some i)
get_of_has [] i h = absurd cc
get_of_has (x ∷ xs) i h = elim (Bool-cases (x == i)) [
  | inl e ↦ (0, ground arith)
  | inr e ↦ let (j, k) = get_of_has xs i (ground arith) in (suc j, k)
]

pub has_of_get : (xs : List ℕ) (j i : ℕ) → get_elem? xs j ≡ some i → has xs i ≡ true
has_of_get [] j i h = cc
has_of_get (x ∷ xs) zero i h = ground arith
has_of_get (x ∷ xs) (suc j) i h = ground (arith, has_of_get xs j i h)

pub All-of_has : (n : ℕ) (xs : List ℕ) → ((i : ℕ) → has xs i ≡ true → i < n) → All (λ i. i < n) xs
All-of_has n [] h = tt
All-of_has n (x ∷ xs) h = (h x (ground arith), All-of_has n xs (λ i e. h i (ground arith)))

missing_from_full :
    (i n : ℕ) (rs : List ℕ) → ((j : ℕ) → j < i + n → has rs j ≡ true) → missing_from i n rs ≡ []
unfolding missing_from
missing_from_full i zero rs h = refl
missing_from_full i (suc n) rs h =
    rw (h i (omega arith)) (missing_from_full (suc i) n rs (λ j lt. h j (omega arith)))

-- Nothing is missing of a file whose chunks are all there.
pub missing_chunks_full :
    (total : ℕ) (rs : List ℕ)
    → ((j : ℕ) → j < total → has rs j ≡ true)
    → missing_chunks total rs ≡ []
unfolding missing_chunks
missing_chunks_full total rs h = missing_from_full 0 total rs (λ j lt. h j (omega arith))
