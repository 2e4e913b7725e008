-- ===== src/Watch/Progress/Laws.antt =====
-- static/watch.js: what saveProgress keeps, where a video resumes, how often progress is saved.
mod Entries
use telegram_hls_streamer_v.Base.{
  ℕ, ◌+◌, ◌*◌, ◌-◌, ◌/◌, ◌≤◌, none, String, ltb, arith, ◌≡◌, inl, inr, eq_iff, ◌≢◌, Bool, ◌&&◌,
  ◌||◌, ◌==◌, leb, if◌then◌else◌, round_percent_iff, Bool-cases,
}
use telegram_hls_streamer_v.Watch.Progress.{
  ProgressMap, lookup, save_progress, saved_position, resume_position, percent_of,
}
pub use telegram_hls_streamer_v.Watch.Progress.Laws.Entries.{kept}
use telegram_hls_streamer_v.Watch.Progress.Laws.Entries.{
  lookup-delete_entry, lookup-delete_entry_other, lookup-put_entry, lookup-put_entry_other,
}

-- After saveProgress with a job's name and a duration of at least five seconds, the map has that
-- job's progress exactly if the percentage is between 1 and 95, and it is the position in
-- seconds; every other job's progress is what it was.
pub lookup-save_progress :
    (id other : String) (position duration now : ℕ) (m : ProgressMap)
    → id ≢ ""
    → 5000 ≤ duration
    → other ≢ id
    → (lookup (save_progress id position duration now m) id ≡ kept position duration now)
      × (lookup (save_progress id position duration now m) other ≡ lookup m other)
unfolding save_progress
lookup-save_progress id other position duration now m named long ne = grind (
  arith,
  eq_iff,
  lookup-delete_entry m id,
  lookup-delete_entry_other m id other ne,
  lookup-put_entry m id,
  lookup-put_entry_other m id other,
)

pub lookup-save_progress_own :
    (id : String) (position duration now : ℕ) (m : ProgressMap)
    → id ≢ ""
    → 5000 ≤ duration
    → lookup (save_progress id position duration now m) id ≡ kept position duration now
unfolding save_progress
lookup-save_progress_own id position duration now m named long =
    grind (arith, eq_iff, lookup-delete_entry m id, lookup-put_entry m id)

-- At least 1.5 and less than 94.5 percent of the video were played, the whole second where it was left is more than
-- five seconds from the start, and from the end if the job's duration is known.
abbrev pub is_taken_up : ℕ → ℕ → ℕ → Bool
is_taken_up position duration known =
    leb (3 * duration) (200 * position)
    && ltb (200 * position) (189 * duration)
    && ltb 5000 (position / 1000 * 1000)
    && (known == 0 || ltb (position / 1000 * 1000 + 5000) known)

percent-above :
    (position duration : ℕ)
    → 5000 ≤ duration
    → ltb 1 (percent_of position duration) ≡ leb (3 * duration) (200 * position)
percent-above position duration long =
    let (below, above) = round_percent_iff position duration 2 (omega arith) in
    ground (arith, below, above)

percent-below :
    (position duration : ℕ)
    → 5000 ≤ duration
    → ltb (percent_of position duration) 95 ≡ ltb (200 * position) (189 * duration)
percent-below position duration long =
    let (below, above) = round_percent_iff position duration 95 (omega arith) in
    ground (arith, below, above)

resume-kept :
    (position duration now known : ℕ)
    → resume_position (saved_position none (kept position duration now)) known ≡ (
        if (ltb 1 (percent_of position duration) && ltb (percent_of position duration) 95)
          && ltb 5000 (position / 1000 * 1000)
          && (known == 0 || ltb (position / 1000 * 1000 + 5000) known)
        then position / 1000 * 1000
        else 0)
unfolding resume_position saved_position
resume-kept position duration now known =
    elim (Bool-cases
      (ltb 1 (percent_of position duration) && ltb (percent_of position duration) 95)) [
        | inl t ↦ rw t (ground arith)
        | inr f ↦ rw f (ground arith)
      ]

-- Where a video of at least five seconds is taken up again after it was saved here, if the server has no place of its own: at the
-- whole second where it was left, if at least 1.5 and less than 94.5 percent of it were played and that second is
-- more than five from the start and, if the job's duration is known, from its end; otherwise at the start.
pub resume_position-save_progress :
    (id : String) (position duration now known : ℕ) (m : ProgressMap)
    → id ≢ ""
    → 5000 ≤ duration
    → resume_position
        (saved_position none (lookup (save_progress id position duration now m) id))
        known
      ≡ (if is_taken_up position duration known then position / 1000 * 1000 else 0)
resume_position-save_progress id position duration now known m named long =
    rw
      (
        lookup-save_progress_own id position duration now m named long,
        ← percent-above position duration long,
        ← percent-below position duration long,
      )
      (resume-kept position duration now known)
