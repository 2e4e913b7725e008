-- ===== src/Upload/Pool/Exclusive/Steps.antt =====
-- static/upload.js: what keeps the order of the queue and of the workers, step by step.
use telegram_hls_streamer_v.Base.{
  ℕ, zero, suc, ◌+◌, ◌≤◌, ◌<◌, ◌≡◌, ◌≢◌, refl, sym, ◌∙◌, ◌⊎◌, inl, inr, ap, true, false, List, [],
  ◌∷◌, some, arith, has, get_elem?, set, get_elem?-set_self, get_elem?-set_ne, ℕ-cases, Bool-cases,
  Option-cases, if_elim,
}
use telegram_hls_streamer_v.Upload.Chunks.Coverage.{IsIncreasing}
use telegram_hls_streamer_v.Upload.Pool.{Worker, sending, finished, failed, Pool, take_work}

pub IsIncreasing-get :
    (n : ℕ) (xs : List ℕ) (j i : ℕ) → IsIncreasing n xs → get_elem? xs j ≡ some i → n + j ≤ i
IsIncreasing-get n [] j i h e = absurd cc
IsIncreasing-get n (x ∷ xs) zero i (h, hs) e = ground arith
IsIncreasing-get n (x ∷ xs) (suc j) i (h, hs) e =
    omega (arith, IsIncreasing-get (suc x) xs j i hs e)

-- A chunk stands in one place of the queue.
pub get_elem?-injective :
    (n : ℕ) (xs : List ℕ) (j k i : ℕ)
    → IsIncreasing n xs
    → get_elem? xs j ≡ some i
    → get_elem? xs k ≡ some i
    → j ≡ k
get_elem?-injective n [] j k i h e f = absurd cc
get_elem?-injective n (x ∷ xs) zero zero i (h, hs) e f = refl
get_elem?-injective n (x ∷ xs) zero (suc k) i (h, hs) e f =
    absurd (ground (arith, IsIncreasing-get (suc x) xs k i hs f))
get_elem?-injective n (x ∷ xs) (suc j) zero i (h, hs) e f =
    absurd (ground (arith, IsIncreasing-get (suc x) xs j i hs e))
get_elem?-injective n (x ∷ xs) (suc j) (suc k) i (h, hs) e f =
    ap suc (get_elem?-injective (suc x) xs j k i hs e f)

pub record Orderly (p : Pool) : Type 0 where
  pub increasing : IsIncreasing 0 p.missing
  -- What a worker sends, it took from the queue.
  pub taken :
      (w i : ℕ)
      → get_elem? p.workers w ≡ some (sending i)
      → (j : ℕ) × (j < p.next_work) × (get_elem? p.missing j ≡ some i)
  -- What has arrived from the queue was taken from it.
  pub behind :
      (j i : ℕ) → get_elem? p.missing j ≡ some i → has p.received i ≡ true → j < p.next_work
  pub unsent : (w i : ℕ) → get_elem? p.workers w ≡ some (sending i) → has p.received i ≡ false
  pub alone :
      (w v i : ℕ)
      → get_elem? p.workers w ≡ some (sending i)
      → get_elem? p.workers v ≡ some (sending i)
      → w ≡ v

-- Reading a worker's state after `set`: it is the worker set, or it is another one.
pub get_elem?-set_inv :
    (ws : List Worker) (w v : ℕ) (old new a : Worker)
    → get_elem? ws w ≡ some old
    → get_elem? (set ws w new) v ≡ some a
    → ((w ≡ v) × (new ≡ a)) ⊎ ((w ≢ v) × (get_elem? ws v ≡ some a))
get_elem?-set_inv ws w v old new a at e = elim (ℕ-cases w v) [
  | inl same ↦ inl (same, ground (arith, get_elem?-set_self ws w new old at))
  | inr other ↦ inr (other, sym (get_elem?-set_ne ws w v new other) ∙ e)
]

-- A worker that stops sending leaves the others as they are.
pub rest-Orderly :
    (p : Pool) (w : ℕ) (old new : Worker)
    → get_elem? p.workers w ≡ some old
    → ((k : ℕ) → new ≢ sending k)
    → Orderly p
    → Orderly (record p { workers = set p.workers w new })
rest-Orderly p w old new at none_sent o = record {
  increasing = o.increasing;
  taken = λ v i e. o.taken v i (other v i e);
  behind = o.behind;
  unsent = λ v i e. o.unsent v i (other v i e);
  alone = λ v u i e f. o.alone v u i (other v i e) (other u i f);
}
  where
    other :
        (v i : ℕ)
        → get_elem? (set p.workers w new) v ≡ some (sending i)
        → get_elem? p.workers v ≡ some (sending i)
    other v i e = elim (get_elem?-set_inv p.workers w v old new (sending i) at e) [
      | inl (_, c) ↦ absurd (none_sent i c)
      | inr (_, k) ↦ k
    ]

-- The state of the queue while worker `w` is between two chunks.
pub record Between (p : Pool) (w : ℕ) : Type 0 where
  pub increasing : IsIncreasing 0 p.missing
  pub taken :
      (v i : ℕ)
      → w ≢ v
      → get_elem? p.workers v ≡ some (sending i)
      → (j : ℕ) × (j < p.next_work) × (get_elem? p.missing j ≡ some i)
  pub behind :
      (j i : ℕ) → get_elem? p.missing j ≡ some i → has p.received i ≡ true → j < p.next_work
  pub unsent :
      (v i : ℕ) → w ≢ v → get_elem? p.workers v ≡ some (sending i) → has p.received i ≡ false
  pub alone :
      (v u i : ℕ)
      → w ≢ v
      → w ≢ u
      → get_elem? p.workers v ≡ some (sending i)
      → get_elem? p.workers u ≡ some (sending i)
      → v ≡ u

pub settle-Orderly :
    (p : Pool) (w : ℕ) (old new : Worker)
    → get_elem? p.workers w ≡ some old
    → ((k : ℕ) → new ≢ sending k)
    → Between p w
    → Orderly (record p { workers = set p.workers w new })
settle-Orderly p w old new at none_sent o = record {
  increasing = o.increasing;
  taken = λ v i e. let (ne, k) = other v i e in o.taken v i ne k;
  behind = o.behind;
  unsent = λ v i e. let (ne, k) = other v i e in o.unsent v i ne k;
  alone = λ v u i e f.
      let (ne, k) = other v i e in let (nf, l) = other u i f in o.alone v u i ne nf k l;
}
  where
    other :
        (v i : ℕ)
        → get_elem? (set p.workers w new) v ≡ some (sending i)
        → (w ≢ v) × (get_elem? p.workers v ≡ some (sending i))
    other v i e = elim (get_elem?-set_inv p.workers w v old new (sending i) at e) [
      | inl (_, c) ↦ absurd (none_sent i c)
      | inr k ↦ k
    ]

pub take-Orderly :
    (p : Pool) (w i : ℕ) (old : Worker)
    → get_elem? p.workers w ≡ some old
    → get_elem? p.missing p.next_work ≡ some i
    → Between p w
    → Orderly (record p { workers = set p.workers w (sending i); next_work = suc p.next_work })
take-Orderly p w i old at next o = record {
  increasing = o.increasing;
  taken = λ v k e. elim (other v k e) [
    | inl (_, c) ↦ (p.next_work, omega arith, ground arith)
    | inr (ne, f) ↦ let (j, lt, g) = o.taken v k ne f in (j, omega arith, g)
  ];
  behind = λ j k e h. omega (arith, o.behind j k e h);
  unsent = λ v k e. elim (other v k e) [
    | inl (_, c) ↦ new_chunk k (ground arith)
    | inr (ne, f) ↦ o.unsent v k ne f
  ];
  alone = λ v u k e f. elim (other v k e) [
    | inl (a, c) ↦ elim (other u k f) [
      | inl (b, d) ↦ sym a ∙ b
      | inr (nu, g) ↦ absurd (fresh u k nu g (ground arith))
    ]
    | inr (nv, g) ↦ elim (other u k f) [
      | inl (b, d) ↦ absurd (fresh v k nv g (ground arith))
      | inr (nu, l) ↦ o.alone v u k nv nu g l
    ]
  ];
}
  where
    other :
        (v k : ℕ)
        → get_elem? (set p.workers w (sending i)) v ≡ some (sending k)
        → ((w ≡ v) × (sending i ≡ sending k))
          ⊎ ((w ≢ v) × (get_elem? p.workers v ≡ some (sending k)))
    other v k e = get_elem?-set_inv p.workers w v old (sending i) (sending k) at e

    new_chunk : (k : ℕ) → i ≡ k → has p.received k ≡ false
    new_chunk k c = elim (Bool-cases (has p.received k)) [
      | inl h ↦ absurd (omega (arith, o.behind p.next_work k (ground arith) h))
      | inr h ↦ h
    ]

    fresh : (v k : ℕ) → w ≢ v → get_elem? p.workers v ≡ some (sending k) → i ≡ k → ⊥
    fresh v k ne e c =
        let (j, lt, f) = o.taken v k ne e in
        omega (arith, get_elem?-injective 0 p.missing j p.next_work k o.increasing f (ground arith))

pub take_work-Orderly :
    (p : Pool) (w : ℕ) (old : Worker)
    → get_elem? p.workers w ≡ some old
    → Between p w
    → Orderly (take_work p w)
unfolding take_work
take_work-Orderly p w old at o = elim (Option-cases (get_elem? p.missing p.next_work)) [
  | inl e ↦ rw (e, take_work) (settle-Orderly p w old finished at (λ k. cc) o)
  | inr (i, e) ↦
      rw (e, take_work)
        (if_elim Orderly p.is_cancelled _ _ (λ _. settle-Orderly p w old failed at (λ k. cc) o)
          (λ _. take-Orderly p w i old at e o))
]
