-- ===== src/Watch/Info/Laws.antt =====
-- static/watch.js: what the panel offers to resume, and the videos that it lists.
use telegram_hls_streamer_v.Base.{
  round_percent-below, ◌&&◌, ℕ, ◌+◌, ◌*◌, ◌/◌, ◌≤◌, ◌<◌, true, not, List, Option, none, some, ltb,
  String, length, length-take-le, All-take, All, All-filter_of, ◌≡◌, ◌≢◌, refl, arith, if_elim,
  subst,
}
use telegram_hls_streamer_v.Base.Decimal.{CodeUnits}
use telegram_hls_streamer_v.Shared.Text.{same_text}
use telegram_hls_streamer_v.Shared.Text.Laws.{same_text_self}
use telegram_hls_streamer_v.Watch.Progress.{
  Progress, ProgressMap, lookup, save_progress, saved_position, resume_position, percent_of,
}
use telegram_hls_streamer_v.Watch.Progress.Laws.{lookup-save_progress_own, kept}
use telegram_hls_streamer_v.Watch.Info.{resume_at, MoreJob, more_like_this}

-- The position that the label names, in milliseconds; 0 for "Play".
abbrev pub offered : Option ℕ → ℕ
offered none = 0
offered (some seconds) = seconds * 1000

-- Less than 95 percent of a long video leaves more than five seconds.
below_95 :
    (position duration : ℕ)
    → 91000 ≤ duration
    → percent_of position duration < 95
    → position / 1000 * 1000 + 5000 < duration
below_95 position duration long h =
    let below = round_percent-below position duration 95 (omega arith) (omega arith) in
    omega (arith, below)

kept-offered :
    (position duration now : ℕ)
    → 91000 ≤ duration
    → offered (resume_at (kept position duration now))
      ≡ resume_position (saved_position none (kept position duration now)) duration
unfolding resume_at resume_position saved_position
kept-offered position duration now long =
    if_elim
      (λ (o : Option Progress).
        offered (resume_at o) ≡ resume_position (saved_position none o) duration)
      (ltb 1 (percent_of position duration) && ltb (percent_of position duration) 95) _ _
      (λ t. let rest = below_95 position duration long (ground arith) in ground (arith, rest))
      (λ f. refl)

-- After saveProgress of a video of at least 91 seconds, the button of the panel offers the place where the player starts
-- if the server knows none: "Resume at" that second, or "Play" if the player starts from the beginning.
pub resume_at-resume_position :
    (id : String) (position duration now : ℕ) (m : ProgressMap)
    → id ≢ ""
    → 91000 ≤ duration
    → offered (resume_at (lookup (save_progress id position duration now m) id))
      ≡ resume_position
          (saved_position none (lookup (save_progress id position duration now m) id))
          duration
resume_at-resume_position id position duration now m named long =
    rw (lookup-save_progress_own id position duration now m named (omega arith))
      (kept-offered position duration now long)

-- At most eight videos are listed, and never the one that is played.
pub more_like_this-Others :
    (id : CodeUnits) (reply : Option (List MoreJob))
    → (length (more_like_this id reply) ≤ 8)
      × All (λ (j : MoreJob). j.more_id ≢ id) (more_like_this id reply)
unfolding more_like_this
more_like_this-Others id none = (omega arith, tt)
more_like_this-Others id (some jobs) = (
  length-take-le 8 _,
  All-take (λ (j : MoreJob). j.more_id ≢ id) 8 _
      (All-filter_of (λ (j : MoreJob). j.more_id ≢ id) _ jobs (λ j h e. other j.more_id id h e)),
)
  where
    other : (s t : CodeUnits) → not (same_text s t) ≡ true → s ≢ t
    other s t h e = ground (arith, subst (λ x. same_text s x ≡ true) e (same_text_self s))
