-- ===== src/Browse/Palette.antt =====
-- static/browse-palette.js: the command palette, its rows, and the keys that move over them.
pub mod Laws
pub mod Texts
pub mod Search
use telegram_hls_streamer_v.Base.{
  ℕ, ◌+◌, ◌-◌, Bool, true, false, ◌||◌, List, [], ◌∷◌, ◌++◌, Option, none, some, if◌then◌else◌, ltb,
  ◌==◌, length, get_elem?, map, min, or_default,
}
use telegram_hls_streamer_v.Base.Decimal.{CodeUnits, codes}
use telegram_hls_streamer_v.Shared.Slug.{slugify_short}
use telegram_hls_streamer_v.Shared.Text.{is_empty}

-- The three quick actions.
pub data Action : Type 0 where
  upload_a_video : Action
  open_settings : Action
  toggle_theme : Action

-- An entry of `items`: where a job leads, or an action.
pub data Item : Type 0 where
  job_item : CodeUnits → Item
  action_item : Action → Item

-- What a row needs of a job; its clean title is given.
pub record Job : Type 0 where
  pub job_id : CodeUnits
  pub title : CodeUnits
  pub is_anime_tv : Bool
  pub is_series : Bool
  pub episode_count : Option ℕ
  pub series_name : CodeUnits

unfoldable pub href_of : Job → CodeUnits
href_of j =
    if j.is_series || ltb 0 (or_default j.episode_count 0)
    then (if j.is_anime_tv then codes "/anime-tv" else codes "/series")
      ++ codes "/"
      ++ slugify_short (if is_empty j.series_name then j.title else j.series_name)
    else codes "/watch/" ++ j.job_id

-- `overlay` (`none` before it is made), `items`, and `activeIdx`, where `none` is -1.
pub record Palette : Type 0 where
  pub shown : Option Bool
  pub items : List Item
  pub rows : ℕ
  pub active : Option ℕ

-- `render` with the actions that `quickActions` gives for the query.
unfoldable pub render : List Action → List Job → Palette → Palette
render actions jobs p = record p {
  items = map (λ j. job_item (href_of j)) jobs ++ map action_item actions;
  rows = length jobs + length actions;
}

-- `moveActive(1)` and `moveActive(-1)`.
unfoldable pub move_down : Palette → Palette
move_down p = if p.rows == 0 then p else elim p.active [
  | none ↦ record p { active = some 0 }
  | some i ↦ record p { active = some (min (p.rows - 1) (i + 1)) }
]

unfoldable pub move_up : Palette → Palette
move_up p = if p.rows == 0 then p else elim p.active [
  | none ↦ record p { active = some (p.rows - 1) }
  | some i ↦ record p { active = some (min (p.rows - 1) (i - 1)) }
]

-- The item that Enter opens, if there is one.
unfoldable pub activated : Palette → Option Item
activated p = get_elem? p.items (elim p.active [ none ↦ 0 | some i ↦ i ])

unfoldable pub close : Palette → Palette
close p = elim p.shown [ none ↦ p | some s ↦ record p { shown = some false } ]

-- `open` before its list has come: the rows are cleared, the items are those of the last time.
unfoldable pub open_palette : Palette → Palette
open_palette p = record p { shown = some true; rows = 0; active = none }

unfoldable pub activate : Palette → Palette
activate p = elim (activated p) [ none ↦ p | some item ↦ close p ]

-- The events: a text is typed, a list arrives, a key.
pub data Event : Type 0 where
  typed : Event
  listed : List Action → List Job → Event
  arrow_down : Event
  arrow_up : Event
  enter : Event
  escape : Event
  shortcut : Event

unfoldable pub step : Palette → Event → Palette
step p typed = record p { active = none }
step p (listed actions jobs) = render actions jobs p
step p arrow_down = move_down p
step p arrow_up = move_up p
step p enter = activate p
step p escape = close p
step p shortcut = elim p.shown [
  | none ↦ open_palette p
  | some s ↦ if s then close p else open_palette p
]

unfoldable pub run : Palette → List Event → Palette
run p [] = p
run p (e ∷ es) = run (step p e) es
