-- ===== src/Browse/Home.antt =====
-- static/browse-home.js: the home page: how far each recent video was watched, the spotlights, and the state
-- of the server in the bar.
pub mod Laws
pub mod Hero
pub mod Row
pub mod Load
pub mod Cards
use telegram_hls_streamer_v.Base.{
  ℕ, ◌+◌, ◌/◌, ◌%◌, Bool, false, not, ◌&&◌, List, [], ◌∷◌, ◌++◌, Option, none, some, if◌then◌else◌,
  String, ltb, ◌==◌, map, filter, take,
}
use telegram_hls_streamer_v.Watch.Progress.{Progress, ProgressMap, lookup}

-- The server's progress of a job: its percentage, and its position in milliseconds.
pub record ServerProgress : Type 0 where
  pub progress_pct : ℕ
  pub position : ℕ

-- A recent job, with the progress that is noted on it.
pub record Recent : Type 0 where
  pub job_id : String
  pub progress_pct : Option ℕ
  pub resume_seconds : Option ℕ

abbrev pub is_underway : ℕ → Bool
is_underway pct = ltb 1 pct && ltb pct 95

unfoldable pub annotate_local : Option Progress → Recent → Recent
annotate_local none j = j
annotate_local (some lp) j =
    if is_underway lp.pct
    then record j { progress_pct = some lp.pct; resume_seconds = some lp.seconds }
    else j

unfoldable pub annotate : Option ServerProgress → Option Progress → Recent → Recent
annotate none lp j = annotate_local lp j
annotate (some sp) lp j =
    let fallback = annotate_local lp j in
    if is_underway sp.progress_pct
    then record j {
      progress_pct = some sp.progress_pct;
      resume_seconds = some (sp.position / 1000);
    }
    else fallback

-- `annotated`, from the server's answer and the map in localStorage.
unfoldable pub annotated :
    (String → Option ServerProgress) → ProgressMap → List Recent → List Recent
annotated server m recent = map (λ j. annotate (server j.job_id) (lookup m j.job_id) j) recent

-- The jobs of the row to continue watching, before they are put in order.
unfoldable pub is_watched : Recent → Bool
is_watched j = elim j.progress_pct [ none ↦ false | some pct ↦ ltb 0 pct && ltb pct 95 ]

-- A spotlight is a job, with or without a picture.
pub record Spot : Type 0 where
  pub job_id : String
  pub has_thumbnail : Bool

abbrev pub no_thumbnail : Spot → Bool
no_thumbnail s = not s.has_thumbnail

abbrev pub thumbnail : Spot → Bool
thumbnail s = s.has_thumbnail

-- `[...withThumb, ...withoutThumb].slice(0, 3)`.
unfoldable pub spots_of : List Spot → List Spot
spots_of items = take 3 (filter thumbnail items ++ filter no_thumbnail items)

-- The events of the spotlights: the timer, which runs if there are two or more, and a click on a dot.
pub data Turn : Type 0 where
  tick : Turn
  dot : ℕ → Turn

-- `current` after an event; there is a dot for each of two or more spotlights.
unfoldable pub turn : ℕ → ℕ → Turn → ℕ
turn count current tick = if ltb count 2 then current else (current + 1) % count
turn count current (dot i) = if ltb 1 count && ltb i count then i else current

unfoldable pub turns : ℕ → ℕ → List Turn → ℕ
turns count current [] = current
turns count current (t ∷ ts) = turns count (turn count current t) ts

-- What the bar shows.
pub data Pill : Type 0 where
  processing : ℕ → Pill
  no_bots : Pill
  not_probed : Pill
  all_healthy : Pill
  some_online : ℕ → ℕ → Pill

-- The server's health: active jobs, bots configured and healthy, results of the last probe.
pub record Health : Type 0 where
  pub active : ℕ
  pub configured : ℕ
  pub healthy : ℕ
  pub probes : ℕ

unfoldable pub update_status_pill : Health → Pill
update_status_pill h =
    if ltb 0 h.active
    then processing h.active
    else if h.configured == 0
    then no_bots
    else if h.probes == 0
    then not_probed
    else if h.healthy == h.configured
    then all_healthy
    else some_online h.healthy h.configured
