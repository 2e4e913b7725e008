-- ===== src/Upload/Pool/Progress/Busy.antt =====
-- The workers that wait for a reply.
use telegram_hls_streamer_v.Base.{
  ℕ, zero, suc, ◌+◌, ◌≡◌, refl, ◌⊎◌, inl, inr, ap, List, [], ◌∷◌, ◌++◌, some, arith, get_elem?, set,
  All,
}
use telegram_hls_streamer_v.Upload.Pool.{Worker, ready, sending, finished, failed}

-- A worker that waits for a chunk or has returned.
abbrev pub IsWorking : Worker → Type 0
IsWorking ready = ⊥
IsWorking (sending i) = Unit
IsWorking finished = Unit
IsWorking failed = ⊥

abbrev pub busy : List Worker → ℕ
busy [] = 0
busy (sending i ∷ ws) = suc (busy ws)
busy (_ ∷ ws) = busy ws

pub All-set :
    (ws : List Worker) (w : ℕ) (a : Worker)
    → IsWorking a
    → All IsWorking ws
    → All IsWorking (set ws w a)
All-set [] w a h k = tt
All-set (x ∷ ws) zero a h (k, ks) = (h, ks)
All-set (x ∷ ws) (suc w) a h (k, ks) = (k, All-set ws w a h ks)

pub busy-set_finished :
    (ws : List Worker) (w i : ℕ)
    → get_elem? ws w ≡ some (sending i)
    → suc (busy (set ws w finished)) ≡ busy ws
busy-set_finished [] w i e = absurd cc
busy-set_finished (sending k ∷ ws) zero i e = refl
busy-set_finished (ready ∷ ws) zero i e = absurd cc
busy-set_finished (finished ∷ ws) zero i e = absurd cc
busy-set_finished (failed ∷ ws) zero i e = absurd cc
busy-set_finished (sending k ∷ ws) (suc w) i e = ap suc (busy-set_finished ws w i e)
busy-set_finished (ready ∷ ws) (suc w) i e = busy-set_finished ws w i e
busy-set_finished (finished ∷ ws) (suc w) i e = busy-set_finished ws w i e
busy-set_finished (failed ∷ ws) (suc w) i e = busy-set_finished ws w i e

pub busy-set_sending :
    (ws : List Worker) (w i k : ℕ)
    → get_elem? ws w ≡ some (sending i)
    → busy (set ws w (sending k)) ≡ busy ws
busy-set_sending [] w i k e = absurd cc
busy-set_sending (sending l ∷ ws) zero i k e = refl
busy-set_sending (ready ∷ ws) zero i k e = absurd cc
busy-set_sending (finished ∷ ws) zero i k e = absurd cc
busy-set_sending (failed ∷ ws) zero i k e = absurd cc
busy-set_sending (sending l ∷ ws) (suc w) i k e = ap suc (busy-set_sending ws w i k e)
busy-set_sending (ready ∷ ws) (suc w) i k e = busy-set_sending ws w i k e
busy-set_sending (finished ∷ ws) (suc w) i k e = busy-set_sending ws w i k e
busy-set_sending (failed ∷ ws) (suc w) i k e = busy-set_sending ws w i k e

-- Somebody waits for a reply, or all have returned.
pub waits :
    (ws : List Worker)
    → All IsWorking ws
    → (All (λ x. x ≡ finished) ws) ⊎ ((w : ℕ) × (i : ℕ) × (get_elem? ws w ≡ some (sending i)))
waits [] h = inl tt
waits (sending i ∷ ws) h = inr (0, i, refl)
waits (ready ∷ ws) (h, hs) = absurd h
waits (failed ∷ ws) (h, hs) = absurd h
waits (finished ∷ ws) (h, hs) = elim (waits ws hs) [
  | inl done ↦ inl (refl, done)
  | inr (w, i, e) ↦ inr (suc w, i, e)
]

pub busy-append : (ws vs : List Worker) → busy (ws ++ vs) ≡ busy ws + busy vs
busy-append [] vs = omega arith
busy-append (sending i ∷ ws) vs = omega (arith, busy-append ws vs)
busy-append (ready ∷ ws) vs = busy-append ws vs
busy-append (finished ∷ ws) vs = busy-append ws vs
busy-append (failed ∷ ws) vs = busy-append ws vs
