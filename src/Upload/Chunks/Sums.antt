-- ===== src/Upload/Chunks/Sums.antt =====
-- The bytes of a set of chunks, counted chunk by chunk over the whole file.
use telegram_hls_streamer_v.Base.{
  ℕ, zero, suc, ◌+◌, ◌-◌, ◌*◌, ◌≤◌, ◌<◌, min, ◌≡◌, refl, ◌∙◌, sym, ap, true, false, List, [], ◌∷◌,
  arith, if◌then◌else◌, has, add, IsSetList, add-IsSetList, has-add, All, All-append,
}
use telegram_hls_streamer_v.Upload.Chunks.{chunk_end, bytes_from, bytes_for_received_chunks}

abbrev pub chunk_bytes : ℕ → ℕ → ℕ → ℕ
chunk_bytes size chunk i = chunk_end size chunk i - i * chunk

-- The bytes of the chunks below `n` that are in the set.
pub covered : ℕ → ℕ → ℕ → List ℕ → ℕ
covered size chunk zero rs = 0
covered size chunk (suc n) rs =
    covered size chunk n rs + (if has rs n then chunk_bytes size chunk n else 0)

pub All-add :
    (n : ℕ) (rs : List ℕ) (i : ℕ) → All (λ j. j < n) rs → i < n → All (λ j. j < n) (add rs i)
unfolding add
All-add n rs i h k = ground (arith, All-append (λ j. j < n) rs (i ∷ []) h (k, tt))

module _ (size chunk : ℕ) where
  covered-le : (n : ℕ) (rs : List ℕ) → covered size chunk n rs ≤ min (n * chunk) size
  unfolding covered
  covered-le zero rs = omega arith
  covered-le (suc n) rs = ground (arith, covered-le n rs)

  pub covered-le-size : (n : ℕ) (rs : List ℕ) → covered size chunk n rs ≤ size
  covered-le-size n rs = omega (arith, covered-le n rs)

  -- With every chunk below `n` in the set, the bytes are those of the first `n` chunks.
  pub covered_full :
      (n : ℕ) (rs : List ℕ)
      → ((i : ℕ) → i < n → has rs i ≡ true)
      → covered size chunk n rs ≡ min (n * chunk) size
  unfolding covered
  covered_full zero rs h = omega arith
  covered_full (suc n) rs h =
      rw (h n (omega arith)) (omega (arith, covered_full n rs (λ i k. h i (omega arith))))

  covered_none : (n : ℕ) → covered size chunk n [] ≡ 0
  unfolding covered
  covered_none zero = refl
  covered_none (suc n) = omega (arith, covered_none n)

  covered_skip :
      (n x : ℕ) (xs : List ℕ) → n ≤ x → covered size chunk n (x ∷ xs) ≡ covered size chunk n xs
  unfolding covered
  covered_skip zero x xs h = refl
  covered_skip (suc n) x xs h = ground (arith, covered_skip n x xs)

  covered_cons :
      (n x : ℕ) (xs : List ℕ)
      → x < n
      → has xs x ≡ false
      → covered size chunk n (x ∷ xs) ≡ covered size chunk n xs + chunk_bytes size chunk x
  unfolding covered
  covered_cons zero x xs h k = elim h [ ]
  covered_cons (suc n) x xs h k = ground (arith, covered_cons n x xs, covered_skip n x xs)

  bytes_from-covered :
      (total : ℕ) (rs : List ℕ) (bytes : ℕ)
      → IsSetList rs
      → All (λ i. i < total) rs
      → bytes_from bytes size total chunk rs ≡ bytes + covered size chunk total rs
  unfolding bytes_from
  bytes_from-covered total [] bytes h k = omega (arith, covered_none total)
  bytes_from-covered total (x ∷ xs) bytes (h, hs) (k, ks) =
      bytes_from-covered total xs _ hs ks ∙ ground (arith, covered_cons total x xs k h)

  -- The source's loop over the set counts each chunk of the file once.
  pub bytes_for_received_chunks-covered :
      (total : ℕ) (rs : List ℕ)
      → IsSetList rs
      → All (λ i. i < total) rs
      → bytes_for_received_chunks size total chunk rs ≡ covered size chunk total rs
  unfolding bytes_for_received_chunks
  bytes_for_received_chunks-covered total rs h k = bytes_from-covered total rs 0 h k ∙ omega arith

  -- Only membership counts, not the order of insertion.
  covered_ext :
      (n : ℕ) (rs ss : List ℕ)
      → ((j : ℕ) → has rs j ≡ has ss j)
      → covered size chunk n rs ≡ covered size chunk n ss
  unfolding covered
  covered_ext zero rs ss h = refl
  covered_ext (suc n) rs ss h = rw (h n, covered_ext n rs ss h)

  pub bytes_for_received_chunks-add :
      (total : ℕ) (rs : List ℕ) (i : ℕ)
      → IsSetList rs
      → All (λ i. i < total) rs
      → i < total
      → has rs i ≡ false
      → bytes_for_received_chunks size total chunk (add rs i)
        ≡ bytes_for_received_chunks size total chunk rs + chunk_bytes size chunk i
  bytes_for_received_chunks-add total rs i h k lt new =
      bytes_for_received_chunks-covered total (add rs i) (add-IsSetList rs i h)
        (All-add total rs i k lt)
      ∙ covered_ext total (add rs i) (i ∷ rs) (has-add rs i)
      ∙ covered_cons total i rs lt new
      ∙ sym
          (ap (λ t. t + chunk_bytes size chunk i) (bytes_for_received_chunks-covered total rs h k))
