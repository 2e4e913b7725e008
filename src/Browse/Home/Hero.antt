-- ===== src/Browse/Home/Hero.antt =====
-- static/browse-home.js: the spotlights as they are shown: the pictures, the dots, the text and the timer.
pub mod Laws
use telegram_hls_streamer_v.Base.{
  ℕ, zero, suc, ◌+◌, ◌%◌, Bool, true, false, ◌&&◌, List, [], ◌∷◌, if◌then◌else◌, ltb, ◌==◌,
}

-- One entry for each spotlight: its picture is shown, its dot is the current one. The text is that of `body`.
pub record Hero : Type 0 where
  pub arts : List Bool
  pub dots : List Bool
  pub body : ℕ
  pub current : ℕ
  pub timer : Bool

abbrev pub marks_from : ℕ → ℕ → ℕ → List Bool
marks_from i zero idx = []
marks_from i (suc n) idx = (i == idx) ∷ marks_from (suc i) n idx

-- `count` spotlights have a dot each if there are two or more.
abbrev pub dot_marks : ℕ → ℕ → List Bool
dot_marks count idx = if ltb 1 count then marks_from 0 count idx else []

unfoldable pub show_slide : ℕ → ℕ → Hero → Hero
show_slide count idx h = record h {
  arts = marks_from 0 count idx;
  dots = dot_marks count idx;
  body = idx;
  current = idx;
}

unfoldable pub start_timer : ℕ → Hero → Hero
start_timer count h = if ltb count 2 then h else record h { timer = true }

unfoldable pub stop_timer : Hero → Hero
stop_timer h = record h { timer = false }

-- The page shows the first one and starts the timer.
unfoldable pub first_hero : ℕ → Hero
first_hero count =
    start_timer count
      (show_slide count 0 (record { arts = []; dots = []; body = 0; current = 0; timer = false }))

pub data HeroEvent : Type 0 where
  timer_ticks : HeroEvent
  dot_clicked : ℕ → HeroEvent
  page_left : HeroEvent

-- Only a running timer ticks, and only a dot that is there is clicked.
unfoldable pub hero_step : ℕ → Hero → HeroEvent → Hero
hero_step count h timer_ticks =
    if h.timer && ltb 1 count then show_slide count ((h.current + 1) % count) h else h
hero_step count h (dot_clicked i) =
    if ltb 1 count && ltb i count
    then start_timer count (show_slide count i (record h { timer = false }))
    else h
hero_step count h page_left = stop_timer h

unfoldable pub hero_run : ℕ → Hero → List HeroEvent → Hero
hero_run count h [] = h
hero_run count h (e ∷ es) = hero_run count (hero_step count h e) es
