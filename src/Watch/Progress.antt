-- ===== src/Watch/Progress.antt =====
-- static/watch.js: where a video was left, and where it is taken up again. Positions and durations are
-- in milliseconds; a duration of 0 stands for a missing one.
pub mod Laws
pub mod Listeners
use telegram_hls_streamer_v.Base.{
  ℕ, ◌*◌, ◌+◌, ◌-◌, ◌/◌, ◌||◌, List, [], ◌∷◌, Option, none, some, if◌then◌else◌, String, ltb, leb,
  Bool, true, false, str_eq, round_percent, min, ◌&&◌,
}

-- A value of the map in localStorage.
pub record Progress : Type 0 where
  pub pct : ℕ
  pub seconds : ℕ
  pub duration : ℕ
  pub ts : ℕ

pub record Entry : Type 0 where
  pub job : String
  pub progress : Progress

abbrev pub ProgressMap : Type 0
ProgressMap = List Entry

unfoldable pub lookup : ProgressMap → String → Option Progress
lookup [] id = none
lookup (e ∷ m) id = if str_eq e.job id then some e.progress else lookup m id

-- `delete map[jobId]`.
unfoldable pub delete_entry : ProgressMap → String → ProgressMap
delete_entry [] id = []
delete_entry (e ∷ m) id = let rest = delete_entry m id in if str_eq e.job id then rest else e ∷ rest

-- `map[jobId] = p`: a key that is there keeps its place.
unfoldable pub put_entry : ProgressMap → String → Progress → ProgressMap
put_entry [] id p = record { job = id; progress = p } ∷ []
put_entry (e ∷ m) id p =
    let rest = put_entry m id p in
    if str_eq e.job id then record { job = id; progress = p } ∷ m else e ∷ rest

-- `pct` of saveProgress; the position is never negative.
abbrev pub percent_of : ℕ → ℕ → ℕ
percent_of position duration = min 100 (round_percent position duration)

unfoldable pub save_progress : String → ℕ → ℕ → ℕ → ProgressMap → ProgressMap
save_progress id position duration now m =
    if str_eq id "" || ltb duration 5000
    then m
    else if leb 95 (percent_of position duration) || leb (percent_of position duration) 1
    then delete_entry m id
    else put_entry m id (record {
      pct = percent_of position duration;
      seconds = position / 1000;
      duration = duration / 1000;
      ts = now;
    })

-- `saved?.position_seconds ?? saved?.seconds ?? 0`, where the server's answer comes first.
unfoldable pub saved_position : Option ℕ → Option Progress → ℕ
saved_position (some position) local = position
saved_position none (some p) = p.seconds * 1000
saved_position none none = 0

-- `resumeSeconds`, from the saved position and the duration the job is known to have.
unfoldable pub resume_position : ℕ → ℕ → ℕ
resume_position position known =
    if leb position 5000
    then 0
    else if ltb 0 known && leb known (position + 5000)
    then 0
    else position

-- A save: when, and whether it was made by a listener of `timeupdate`.
pub record Save : Type 0 where
  pub saved_at : ℕ
  pub timed : Bool

-- The listeners from one initPlayer to the next: when those of `timeupdate` saved last, and all the saves, the newest first.
pub record Saves : Type 0 where
  pub last_save : ℕ
  pub server_last_save : ℕ
  pub local_saves : List Save
  pub server_saves : List Save

abbrev pub no_saves : Saves
no_saves = record { last_save = 0; server_last_save = 0; local_saves = []; server_saves = [] }

unfoldable pub save_local : Saves → ℕ → Saves
save_local s now = if ltb (now - s.last_save) 5000 then s else record s {
  last_save = now;
  local_saves = record { saved_at = now; timed = true } ∷ s.local_saves;
}

unfoldable pub save_server : Saves → ℕ → Saves
save_server s now = if ltb (now - s.server_last_save) 30000 then s else record s {
  server_last_save = now;
  server_saves = record { saved_at = now; timed = true } ∷ s.server_saves;
}

unfoldable pub time_update : Saves → ℕ → Saves
unfolding save_local save_server
time_update s now = save_server (save_local s now) now

-- The listeners of `pause` and `seeked`, and that of `ended`.
unfoldable pub save_server_now : Saves → ℕ → Saves
save_server_now s now = record s {
  server_saves = record { saved_at = now; timed = false } ∷ s.server_saves;
}

unfoldable pub save_ended : Saves → ℕ → Saves
unfolding save_server_now
save_ended s now =
    save_server_now
      (record s { local_saves = record { saved_at = now; timed = false } ∷ s.local_saves }) now

pub data VideoEvent : Type 0 where
  updated : ℕ → VideoEvent
  paused : ℕ → VideoEvent
  seeked : ℕ → VideoEvent
  ended : ℕ → VideoEvent

unfoldable pub play_step : Saves → VideoEvent → Saves
play_step s (updated now) = time_update s now
play_step s (paused now) = save_server_now s now
play_step s (seeked now) = save_server_now s now
play_step s (ended now) = save_ended s now

unfoldable pub play : Saves → List VideoEvent → Saves
play s [] = s
play s (e ∷ es) = play (play_step s e) es
