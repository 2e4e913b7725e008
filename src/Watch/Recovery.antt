-- ===== src/Watch/Recovery.antt =====
-- static/watch.js: the player's buffers, and what an error of the player leads to.
pub mod Laws
use telegram_hls_streamer_v.Base.{
  ℕ, suc, Bool, true, false, not, ◌&&◌, ◌||◌, List, [], ◌∷◌, Option, none, some, if◌then◌else◌, ltb,
  ◌==◌, String,
}

pub record BufferConfig : Type 0 where
  pub buffering_goal : ℕ
  pub rebuffering_goal : ℕ
  pub buffer_behind : ℕ
  pub default_bandwidth_estimate : ℕ

abbrev pub mobile_config : BufferConfig
mobile_config = record {
  buffering_goal = 5;
  rebuffering_goal = 1;
  buffer_behind = 5;
  default_bandwidth_estimate = 5000000;
}

abbrev pub desktop_config : BufferConfig
desktop_config = record {
  buffering_goal = 15;
  rebuffering_goal = 2;
  buffer_behind = 20;
  default_bandwidth_estimate = 10000000;
}

abbrev pub small_config : BufferConfig
small_config = record {
  buffering_goal = 4;
  rebuffering_goal = 1;
  buffer_behind = 4;
  default_bandwidth_estimate = 5000000;
}

abbrev pub default_config : Bool → BufferConfig
default_config is_mobile = if is_mobile then mobile_config else desktop_config

unfoldable pub get_buffer_config : Bool → Option BufferConfig → BufferConfig
get_buffer_config is_mobile none = default_config is_mobile
get_buffer_config is_mobile (some c) = c

-- The notices that stand above the information, the last one first.
pub data Notice : Type 0 where
  playback_error : String → Notice
  codec_tip : Notice
  buffer_tip : Notice
  reinitialized : Notice
  load_error : Notice

-- The page with its player: the configuration that was used, whether a recovery was tried, the place of the video,
-- the notices and how often initPlayer was called.
pub record Page : Type 0 where
  pub config : BufferConfig
  pub attempted_quota_recovery : Bool
  pub current_time : ℕ
  pub notices : List Notice
  pub inits : ℕ

abbrev pub is_given : Option BufferConfig → Bool
is_given none = false
is_given (some c) = true

-- initPlayer: up to its first wait.
unfoldable pub init_player : Bool → Option BufferConfig → Page → Page
init_player is_mobile override p = record p {
  config = get_buffer_config is_mobile override;
  attempted_quota_recovery = is_given override;
  inits = suc p.inits;
}

-- The notices of an error that is not recovered from.
abbrev pub codec_notice : ℕ → List Notice → List Notice
codec_notice code ns = if (code == 3014) || (code == 3015) then codec_tip ∷ ns else ns

abbrev pub buffer_notice : ℕ → List Notice → List Notice
buffer_notice code ns = if code == 3017 then buffer_tip ∷ ns else ns

unfoldable pub show_error : ℕ → String → Page → Page
show_error code message p = record p {
  notices = buffer_notice code (codec_notice code (playback_error message ∷ p.notices));
}

-- What the second start comes to: it fails, or the player stands at a place, and the stream loads or does not.
pub data Restart : Type 0 where
  failed : Restart
  loads : ℕ → Restart
  not_loaded : ℕ → Restart

-- An error of the player: its code and message, and what a second start would come to.
pub record PlayerError : Type 0 where
  pub code : ℕ
  pub message : String
  pub restart : Restart

abbrev pub resume : ℕ → ℕ → Page → Page
resume resume_at t p = record p {
  notices = reinitialized ∷ p.notices;
  current_time = if ltb 0 resume_at then resume_at else t;
}

unfoldable pub restarted : PlayerError → ℕ → Restart → Page → Page
restarted e resume_at failed p = show_error e.code e.message p
restarted e resume_at (loads t) p = resume resume_at t p
restarted e resume_at (not_loaded t) p =
    resume resume_at t (record p { notices = load_error ∷ p.notices })

unfoldable pub on_error : Bool → Page → PlayerError → Page
on_error is_mobile p e =
    if (e.code == 3017) && not p.attempted_quota_recovery
    then restarted e p.current_time e.restart (init_player is_mobile (some small_config) p)
    else show_error e.code e.message p

unfoldable pub errors : Bool → Page → List PlayerError → Page
errors is_mobile p [] = p
errors is_mobile p (e ∷ es) = errors is_mobile (on_error is_mobile p e) es
