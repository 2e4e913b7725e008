-- ===== src/Browse/Home/Row.antt =====
-- static/browse-home.js: the row to continue watching, and the strip of statistics.
pub mod Laws
use telegram_hls_streamer_v.Base.{
  ℕ, ◌+◌, Bool, List, [], ◌++◌, Option, none, some, if◌then◌else◌, String, ltb, leb, ◌==◌, filter,
}
use telegram_hls_streamer_v.Base.Decimal.{CodeUnits, codes, show}
use telegram_hls_streamer_v.Base.Sorting.{sort_with}
use telegram_hls_streamer_v.Watch.Progress.{Progress, ProgressMap, lookup}
use telegram_hls_streamer_v.Browse.Home.{Recent, is_watched}

-- `(sa && Date.parse(sa.updated_at)) || (la?.ts) || 0`: the server's time, if it has one that is not 0, or else
-- the page's own.
abbrev pub local_time : Option Progress → ℕ
local_time none = 0
local_time (some p) = p.ts

abbrev pub time_of : Option ℕ → Option Progress → ℕ
time_of none lp = local_time lp
time_of (some t) lp = if t == 0 then local_time lp else t

unfoldable pub watched_at : (String → Option ℕ) → ProgressMap → Recent → ℕ
watched_at server m j = time_of (server j.job_id) (lookup m j.job_id)

-- `tsB - tsA` is at most 0.
abbrev pub later_first : (String → Option ℕ) → ProgressMap → Recent → Recent → Bool
later_first server m a b = leb (watched_at server m b) (watched_at server m a)

unfoldable pub continue_watching : (String → Option ℕ) → ProgressMap → List Recent → List Recent
continue_watching server m jobs = sort_with (later_first server m) (filter is_watched jobs)

-- The server's health; what is missing is none.
pub record ServerHealth : Type 0 where
  pub active : ℕ
  pub pending : ℕ
  pub healthy : Option ℕ
  pub configured : ℕ
  pub is_ok : Bool

-- The values of the strip.
pub record Stats : Type 0 where
  pub library : CodeUnits
  pub queue : CodeUnits
  pub bots : CodeUnits
  pub health : CodeUnits

abbrev pub queue_value : ℕ → ℕ → CodeUnits
queue_value active pending =
    if ltb 0 (active + pending)
    then show active
      ++ codes " processing"
      ++ (if ltb 0 pending then codes " · " ++ show pending ++ codes " queued" else [])
    else codes "Idle"

abbrev pub healthy_text : Option ℕ → CodeUnits
healthy_text none = codes "—"
healthy_text (some n) = show n

abbrev pub bots_value : Option ℕ → ℕ → CodeUnits
bots_value healthy configured =
    if ltb 0 configured
    then healthy_text healthy ++ codes " / " ++ show configured ++ codes " online"
    else codes "—"

unfoldable pub stats_of : ℕ → Option ServerHealth → Stats
stats_of recent none = record {
  library = show recent ++ codes "+ titles";
  queue = codes "Idle";
  bots = codes "—";
  health = codes "—";
}
stats_of recent (some h) = record {
  library = show recent ++ codes "+ titles";
  queue = queue_value h.active h.pending;
  bots = bots_value h.healthy h.configured;
  health = if h.is_ok then codes "OK" else codes "Degraded";
}
