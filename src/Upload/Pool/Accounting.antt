-- ===== src/Upload/Pool/Accounting.antt =====
-- Where each chunk that was taken from the queue is.
use telegram_hls_streamer_v.Base.{
  ℕ, zero, suc, ◌<◌, ◌≡◌, ◌≢◌, refl, ◌∙◌, inl, inr, true, List, [], ◌∷◌, ◌++◌, none, some, arith,
  has, length, get_elem?, set, get_elem?-set_self, get_elem?-set_ne, ℕ-cases,
}
use telegram_hls_streamer_v.Upload.Pool.{Worker, sending, failed}

-- The chunk has arrived, a worker is sending it, or some worker has failed.
pub data Accounted (received : List ℕ) (workers : List Worker) (i : ℕ) : Type 0 where
  arrived : has received i ≡ true → Accounted received workers i
  held : (w : ℕ) → get_elem? workers w ≡ some (sending i) → Accounted received workers i
  stopped : (w : ℕ) → get_elem? workers w ≡ some failed → Accounted received workers i

-- A worker gets rid of its chunk only once that has arrived, or by failing.
pub Accounted-set :
    (rs rs' : List ℕ) (ws : List Worker) (w : ℕ) (old new : Worker) (i : ℕ)
    → get_elem? ws w ≡ some old
    → ((k : ℕ) → old ≡ sending k → has rs' k ≡ true)
    → old ≢ failed
    → ((k : ℕ) → has rs k ≡ true → has rs' k ≡ true)
    → Accounted rs ws i
    → Accounted rs' (set ws w new) i
Accounted-set rs rs' ws w old new i at good ok grow (arrived h) = arrived (grow i h)
Accounted-set rs rs' ws w old new i at good ok grow (held v e) = elim (ℕ-cases w v) [
  | inl same ↦ arrived (good i (ground arith))
  | inr other ↦ held v (get_elem?-set_ne ws w v new other ∙ e)
]
Accounted-set rs rs' ws w old new i at good ok grow (stopped v e) = elim (ℕ-cases w v) [
  | inl same ↦ absurd (ok (ground arith))
  | inr other ↦ stopped v (get_elem?-set_ne ws w v new other ∙ e)
]

pub Accounted-fail :
    (rs : List ℕ) (ws : List Worker) (w : ℕ) (old : Worker) (i : ℕ)
    → get_elem? ws w ≡ some old
    → Accounted rs ws i
    → Accounted rs (set ws w failed) i
Accounted-fail rs ws w old i at (arrived h) = arrived h
Accounted-fail rs ws w old i at (held v e) = elim (ℕ-cases w v) [
  | inl same ↦ stopped w (get_elem?-set_self ws w failed old at)
  | inr other ↦ held v (get_elem?-set_ne ws w v failed other ∙ e)
]
Accounted-fail rs ws w old i at (stopped v e) = stopped w (get_elem?-set_self ws w failed old at)

get_elem?-append_left {ℓ} :
    {A : Type ℓ} (xs ys : List A) (i : ℕ) (a : A)
    → get_elem? xs i ≡ some a
    → get_elem? (xs ++ ys) i ≡ some a
get_elem?-append_left [] ys i a h = absurd cc
get_elem?-append_left (x ∷ xs) ys zero a h = h
get_elem?-append_left (x ∷ xs) ys (suc i) a h = get_elem?-append_left xs ys i a h

pub get_elem?-append_self {ℓ} :
    {A : Type ℓ} (xs : List A) (a : A) → get_elem? (xs ++ a ∷ []) (length xs) ≡ some a
get_elem?-append_self [] a = refl
get_elem?-append_self (x ∷ xs) a = get_elem?-append_self xs a

pub Accounted-append :
    (rs : List ℕ) (ws vs : List Worker) (i : ℕ) → Accounted rs ws i → Accounted rs (ws ++ vs) i
Accounted-append rs ws vs i (arrived h) = arrived h
Accounted-append rs ws vs i (held w e) = held w (get_elem?-append_left ws vs w _ e)
Accounted-append rs ws vs i (stopped w e) = stopped w (get_elem?-append_left ws vs w _ e)

pub get_elem?-none {ℓ} :
    {A : Type ℓ} (xs : List A) (i j : ℕ) (a : A)
    → get_elem? xs i ≡ none
    → get_elem? xs j ≡ some a
    → j < i
get_elem?-none [] i j a h k = absurd cc
get_elem?-none (x ∷ xs) zero j a h k = absurd cc
get_elem?-none (x ∷ xs) (suc i) zero a h k = omega arith
get_elem?-none (x ∷ xs) (suc i) (suc j) a h k = omega (arith, get_elem?-none xs i j a h k)
