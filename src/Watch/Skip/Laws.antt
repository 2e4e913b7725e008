-- ===== src/Watch/Skip/Laws.antt =====
-- static/watch.js: when the button that skips is shown, and where it leads.
use telegram_hls_streamer_v.Base.{
  ℕ, ◌≤◌, Option, String, true, false, List, [], ◌∷◌, some, ◌≡◌, ◌⊎◌,
}
use telegram_hls_streamer_v.Watch.Skip.{
  MarkerType, intro, outro, credits, other_marker, Marker, is_inside_marker, find_marker, Player,
  click_skip,
}

-- Some marker contains the time.
abbrev pub Covered : ℕ → List Marker → Type 0
Covered t [] = ⊥
Covered t (m ∷ ms) = ((m.start_time ≤ t) × (t ≤ m.end_time)) ⊎ Covered t ms

-- A marker that contains the time and is the one that the button is about.
pub record IsSkipped (t : ℕ) (ms : List Marker) (m : Marker) : Type 0 where
  pub is_found : find_marker t ms ≡ some m
  pub is_inside : is_inside_marker t m ≡ true

-- The label of a marker of the type.
abbrev pub IsLabel : MarkerType → Option String → Type 0
IsLabel intro text = text ≡ some "Skip intro"
IsLabel outro text = text ≡ some "Skip credits"
IsLabel credits text = text ≡ some "Skip credits"
IsLabel other_marker text = text ≡ some "Skip intro"

-- The button as it is shown for a marker, and the click that leads to its end.
pub record Offers (ms : List Marker) (p : Player) (m : Marker) : Type 0 where
  pub from : m.start_time ≤ p.position
  pub until : p.position ≤ m.end_time
  pub shown : p.visible ≡ true
  pub label : IsLabel m.marker_type p.text
  pub leads : (click_skip ms p).position ≡ m.end_time
  pub hides : (click_skip ms p).visible ≡ false
