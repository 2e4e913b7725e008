-- ===== src/Browse/Home/Hero/Laws.antt =====
-- static/browse-home.js: one spotlight is shown at a time, and all that is shown is of it.
use telegram_hls_streamer_v.Base.{
  ℕ, ◌+◌, ◌%◌, ◌<◌, Bool, true, false, ◌&&◌, List, [], ◌∷◌, ltb, ◌≡◌, refl, arith, if_elim,
}
use telegram_hls_streamer_v.Browse.Home.Hero.{
  Hero, marks_from, dot_marks, show_slide, start_timer, stop_timer, first_hero, HeroEvent,
  timer_ticks, dot_clicked, page_left, hero_step, hero_run,
}

-- The picture, the dot and the text are those of the current spotlight, which is one of them.
abbrev pub IsOneShown : ℕ → Hero → Type 0
IsOneShown count h =
    (h.current < count)
    × (h.arts ≡ marks_from 0 count h.current)
    × (h.dots ≡ dot_marks count h.current)
    × (h.body ≡ h.current)

start_timer-IsOneShown :
    (count : ℕ) (h : Hero) → IsOneShown count h → IsOneShown count (start_timer count h)
unfolding start_timer
start_timer-IsOneShown count h s =
    if_elim (λ (g : Hero). IsOneShown count g) (ltb count 2) _ _ (λ t. s) (λ f. s)

show_slide-IsOneShown :
    (count idx : ℕ) (h : Hero) → idx < count → IsOneShown count (show_slide count idx h)
unfolding show_slide
show_slide-IsOneShown count idx h i = (i, refl, refl, refl)

hero_step-IsOneShown :
    (count : ℕ) (h : Hero) (e : HeroEvent)
    → IsOneShown count h
    → IsOneShown count (hero_step count h e)
unfolding hero_step stop_timer
hero_step-IsOneShown count h timer_ticks s =
    if_elim (λ (g : Hero). IsOneShown count g) (h.timer && ltb 1 count) _ _
      (λ t. show_slide-IsOneShown count ((h.current + 1) % count) h (mod_lt h.timer t)) (λ f. s)
  where
    mod_lt : (b : Bool) → (b && ltb 1 count) ≡ true → (h.current + 1) % count < count
    mod_lt true t = ground arith
    mod_lt false t = absurd cc
hero_step-IsOneShown count h (dot_clicked i) s =
    if_elim (λ (g : Hero). IsOneShown count g) (ltb 1 count && ltb i count) _ _
      (λ t.
        start_timer-IsOneShown count (show_slide count i (record h { timer = false }))
          (show_slide-IsOneShown count i (record h { timer = false }) (ground arith)))
      (λ f. s)
hero_step-IsOneShown count h page_left s = s

hero_run-IsOneShown :
    (count : ℕ) (es : List HeroEvent) (h : Hero)
    → IsOneShown count h
    → IsOneShown count (hero_run count h es)
unfolding hero_run
hero_run-IsOneShown count [] h s = s
hero_run-IsOneShown count (e ∷ es) h s =
    hero_run-IsOneShown count es (hero_step count h e) (hero_step-IsOneShown count h e s)

-- With at least one spotlight, whatever ticks and clicks come: the picture that is shown, the dot that is marked and the
-- text are those of one and the same spotlight.
pub first_hero-IsOneShown :
    (count : ℕ) (es : List HeroEvent)
    → 0 < count
    → IsOneShown count (hero_run count (first_hero count) es)
unfolding first_hero
first_hero-IsOneShown count es pos =
    hero_run-IsOneShown count es (first_hero count)
      (start_timer-IsOneShown count _ (show_slide-IsOneShown count 0 _ pos))
