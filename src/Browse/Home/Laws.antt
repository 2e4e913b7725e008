-- ===== src/Browse/Home/Laws.antt =====
-- static/browse-home.js: what the home page shows of what was watched, and that a spotlight is always there.
use telegram_hls_streamer_v.Base.{
  ℕ, ◌+◌, ◌/◌, ◌<◌, ◌≤◌, List, [], ◌∷◌, none, some, length, ◌≡◌, ◌≢◌, arith,
}
use native.Mathlib.Nat.{mod-lt}
use telegram_hls_streamer_v.Watch.Progress.{ProgressMap, lookup, save_progress, percent_of}
use telegram_hls_streamer_v.Watch.Progress.Laws.{lookup-save_progress_own}
use telegram_hls_streamer_v.Browse.Home.{
  Recent, annotate_local, annotate, Spot, spots_of, Turn, tick, dot, turn, turns,
}

turn-lt : (count current : ℕ) (t : Turn) → current < count → turn count current t < count
unfolding turn
turn-lt count current tick h = grind (arith, mod-lt (current + 1) {m = count} (omega arith))
turn-lt count current (dot i) h = ground arith

turns-lt : (count current : ℕ) (ts : List Turn) → current < count → turns count current ts < count
unfolding turns
turns-lt count current [] h = h
turns-lt count current (t ∷ ts) h =
    turns-lt count (turn count current t) ts (turn-lt count current t h)

-- Whatever the timer and the dots do, the shown spotlight is one of those of a list that is not empty.
pub turns-spots_of :
    (items : List Spot) (ts : List Turn)
    → 0 < length (spots_of items)
    → turns (length (spots_of items)) 0 ts < length (spots_of items)
turns-spots_of items ts h = turns-lt (length (spots_of items)) 0 ts h

-- What the page of a video saves is what the home page shows: after saveProgress with a percentage strictly between 1
-- and 95, where the server has no progress of the job, the job has that percentage and the whole second to resume at.
pub annotate-save_progress :
    (j : Recent) (position duration now : ℕ) (m : ProgressMap)
    → j.job_id ≢ ""
    → 5000 ≤ duration
    → 1 < percent_of position duration
    → percent_of position duration < 95
    → annotate none (lookup (save_progress j.job_id position duration now m) j.job_id) j
      ≡ record j {
        progress_pct = some (percent_of position duration);
        resume_seconds = some (position / 1000);
      }
unfolding annotate annotate_local
annotate-save_progress j position duration now m named long lo hi =
    rw (lookup-save_progress_own j.job_id position duration now m named long) (ground arith)
