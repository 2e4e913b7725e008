-- ===== src/Watch/Skip.antt =====
-- static/watch.js: the button that skips an intro or the credits. Times are in milliseconds.
pub mod Laws
use telegram_hls_streamer_v.Base.{
  ℕ, ◌+◌, Bool, true, false, ◌&&◌, List, [], ◌∷◌, Option, none, some, if◌then◌else◌, leb, filter,
  String,
}

pub data MarkerType : Type 0 where
  intro : MarkerType
  outro : MarkerType
  credits : MarkerType
  other_marker : MarkerType

pub record Marker : Type 0 where
  pub marker_type : MarkerType
  pub start_time : ℕ
  pub end_time : ℕ
  pub enabled : Bool

-- loadMarkers: the reply, or none if the request failed.
unfoldable pub load_markers : Option (List Marker) → List Marker
load_markers none = []
load_markers (some ms) = filter Marker.enabled ms

unfoldable pub is_inside_marker : ℕ → Marker → Bool
is_inside_marker t m = leb m.start_time t && leb t m.end_time

-- `currentMarkers.find(m => isInsideMarker(m))`.
unfoldable pub find_marker : ℕ → List Marker → Option Marker
find_marker t [] = none
find_marker t (m ∷ ms) = if is_inside_marker t m then some m else find_marker t ms

abbrev pub skip_label : MarkerType → String
skip_label intro = "Skip intro"
skip_label outro = "Skip credits"
skip_label credits = "Skip credits"
skip_label other_marker = "Skip intro"

-- The place of the video, the button (whose text is `none` until it is made), and when the timer that hides
-- it is due.
pub record Player : Type 0 where
  pub position : ℕ
  pub text : Option String
  pub visible : Bool
  pub fades_at : Option ℕ

-- updateSkipButton, at the time `now`.
unfoldable pub update_skip_button : List Marker → ℕ → Player → Player
update_skip_button markers now p = elim (find_marker p.position markers) [
  | none ↦ record p { visible = false }
  | some m ↦ record p {
    text = some (skip_label m.marker_type);
    visible = true;
    fades_at = some (now + 15000);
  }
]

-- The click.
unfoldable pub click_skip : List Marker → Player → Player
click_skip markers p = elim (find_marker p.position markers) [
  | none ↦ p
  | some m ↦ record p { position = m.end_time; visible = false }
]

-- Time passes: the timer hides the button once it is due.
abbrev pub due : Option ℕ → ℕ → Bool
due none now = false
due (some t) now = leb t now

unfoldable pub pass_time : ℕ → Player → Player
pass_time now p = if due p.fades_at now then record p { visible = false; fades_at = none } else p

-- A run of `timeupdate` events: each at a time and with a place of the video.
pub record Update : Type 0 where
  pub now : ℕ
  pub at : ℕ

unfoldable pub on_update : List Marker → Player → Update → Player
on_update markers p u =
    let q = pass_time u.now p in update_skip_button markers u.now (record q { position = u.at })

unfoldable pub updates : List Marker → Player → List Update → Player
updates markers p [] = p
updates markers p (u ∷ us) = updates markers (on_update markers p u) us
