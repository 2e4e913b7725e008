-- ===== src/Watch/Progress/Laws/Entries.antt =====
-- static/watch.js: entries of the map of progress.
use telegram_hls_streamer_v.Base.{
  ℕ, ◌/◌, ◌<◌, ◌||◌, ◌&&◌, [], ◌∷◌, Option, none, some, if◌then◌else◌, String, ltb, leb, str_eq,
  arith, ◌≡◌, refl, if_elim, All, eq_iff, ◌≢◌,
}
use telegram_hls_streamer_v.Watch.Progress.{
  Progress, ProgressMap, lookup, delete_entry, put_entry, percent_of, save_progress,
}

-- A video that is neither finished nor unstarted.
abbrev pub IsUnderway : Progress → Type 0
IsUnderway p = (1 < p.pct) × (p.pct < 95)

pub delete_entry-Underway :
    (m : ProgressMap) (id : String)
    → All (λ e. IsUnderway e.progress) m
    → All (λ e. IsUnderway e.progress) (delete_entry m id)
unfolding delete_entry
delete_entry-Underway [] id h = tt
delete_entry-Underway (e ∷ m) id (v, vs) =
    if_elim (All (λ x. IsUnderway x.progress)) (str_eq e.job id) _ _
      (λ c. delete_entry-Underway m id vs) (λ c. (v, delete_entry-Underway m id vs))

pub put_entry-Underway :
    (m : ProgressMap) (id : String) (p : Progress)
    → IsUnderway p
    → All (λ e. IsUnderway e.progress) m
    → All (λ e. IsUnderway e.progress) (put_entry m id p)
unfolding put_entry
put_entry-Underway [] id p u h = (u, tt)
put_entry-Underway (e ∷ m) id p u (v, vs) =
    if_elim (All (λ x. IsUnderway x.progress)) (str_eq e.job id) _ _ (λ c. (u, vs))
      (λ c. (v, put_entry-Underway m id p u vs))

-- Whatever is saved, every entry of the map is strictly between 1 and 95 percent.
pub save_progress-Underway :
    (id : String) (position duration now : ℕ) (m : ProgressMap)
    → All (λ e. IsUnderway e.progress) m
    → All (λ e. IsUnderway e.progress) (save_progress id position duration now m)
unfolding save_progress
save_progress-Underway id position duration now m h =
    if_elim (All (λ x. IsUnderway x.progress)) (str_eq id "" || ltb duration 5000) _ _ (λ c. h)
      (λ c.
        if_elim (All (λ x. IsUnderway x.progress))
          (leb 95 (percent_of position duration) || leb (percent_of position duration) 1) _ _
          (λ d. delete_entry-Underway m id h) (λ d. put_entry-Underway m id _ (ground arith) h))

pub lookup-delete_entry : (m : ProgressMap) (id : String) → lookup (delete_entry m id) id ≡ none
unfolding lookup delete_entry
lookup-delete_entry [] id = refl
lookup-delete_entry (e ∷ m) id = ground (arith, lookup-delete_entry m id)

pub lookup-delete_entry_other :
    (m : ProgressMap) (id other : String)
    → other ≢ id
    → lookup (delete_entry m id) other ≡ lookup m other
unfolding lookup delete_entry
lookup-delete_entry_other [] id other ne = refl
lookup-delete_entry_other (e ∷ m) id other ne =
    grind (arith, lookup-delete_entry_other m id other ne, eq_iff)

pub lookup-put_entry :
    (m : ProgressMap) (id : String) (p : Progress) → lookup (put_entry m id p) id ≡ some p
unfolding lookup put_entry
lookup-put_entry [] id p = grind (arith, eq_iff)
lookup-put_entry (e ∷ m) id p = grind (arith, lookup-put_entry m id p, eq_iff)

pub lookup-put_entry_other :
    (m : ProgressMap) (id other : String) (p : Progress)
    → other ≢ id
    → lookup (put_entry m id p) other ≡ lookup m other
unfolding lookup put_entry
lookup-put_entry_other [] id other p ne = grind (arith, eq_iff)
lookup-put_entry_other (e ∷ m) id other p ne =
    grind (arith, lookup-put_entry_other m id other p ne, eq_iff)

-- What saveProgress leaves of a video that lasts at least five seconds.
abbrev pub kept : ℕ → ℕ → ℕ → Option Progress
kept position duration now =
    if ltb 1 (percent_of position duration) && ltb (percent_of position duration) 95
    then some (record {
      pct = percent_of position duration;
      seconds = position / 1000;
      duration = duration / 1000;
      ts = now;
    })
    else none
