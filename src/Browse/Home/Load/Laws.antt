-- ===== src/Browse/Home/Load/Laws.antt =====
-- static/browse-home.js: no empty rows, and bots that are probed before the page tells of them.
use telegram_hls_streamer_v.Base.{
  ◌<◌, Bool, true, false, List, [], ◌∷◌, ◌++◌, Option, none, some, if◌then◌else◌, ltb, ◌==◌, ◌&&◌,
  map, All, All-append, ◌≡◌, ◌≢◌, refl, arith,
}
use telegram_hls_streamer_v.Base.Decimal.{CodeUnits, codes}
use telegram_hls_streamer_v.Browse.Home.{Health, Pill, not_probed, update_status_pill}
use telegram_hls_streamer_v.Browse.Home.Load.{
  HealthRequest, ask_health, ask_probe, needs_probe, fetch_health_with_probe, HomeRow, Slices,
  row_if, render_rows,
}

abbrev pub IsFilled : {A : Type 0} → HomeRow A → Type 0
IsFilled r = r.row_jobs ≢ []

row_if-IsFilled :
    {A : Type 0} (title : CodeUnits) (see : Option CodeUnits) (poster : Bool) (js : List A)
    → All IsFilled (row_if title see poster js)
row_if-IsFilled title see poster [] = tt
row_if-IsFilled title see poster (j ∷ js) = (λ e. cc e, tt)

-- No row of the page is without jobs.
pub render_rows-IsFilled :
    {A : Type 0} (s : Slices A) (watching : List A) (annotate : A → A)
    → All IsFilled (render_rows s watching annotate)
unfolding render_rows
render_rows-IsFilled s watching annotate =
    All-append IsFilled _ _
      (All-append IsFilled _ _
        (All-append IsFilled _ _
          (All-append IsFilled _ _ (row_if-IsFilled (codes "Continue Watching") none false watching)
            (row_if-IsFilled (codes "Recently Added") none false (map annotate s.recent)))
          (row_if-IsFilled (codes "Films") (some (codes "/films")) false s.films))
        (row_if-IsFilled (codes "Series") (some (codes "/series")) false s.series))
      (row_if-IsFilled (codes "Anime") none true (s.anime_films ++ s.anime_tv))

-- What the bar shows after the health was asked for.
abbrev pub pill_of : Option Health → Option Pill
pill_of none = none
pill_of (some h) = some (update_status_pill h)

some_pill-not_probed :
    (h : Health)
    → (ltb 0 h.configured && h.probes == 0) ≡ false
    → some (update_status_pill h) ≢ some not_probed
unfolding update_status_pill
some_pill-not_probed h n = ground arith

-- If the probe and the second request succeed, and the server has results after a probe, then the bar does not say that
-- the bots were not probed; and the server is asked to probe, and then again for its health, if and only if its first reply has
-- bots and no results.
pub fetch_health_with_probe-pill :
    (first second : Health)
    → 0 < second.probes
    → (pill_of (fetch_health_with_probe (some first) true (some second)).0 ≢ some not_probed)
      × ((fetch_health_with_probe (some first) true (some second)).1 ≡ (
          if ltb 0 first.configured && first.probes == 0
          then ask_health ∷ ask_probe ∷ ask_health ∷ []
          else ask_health ∷ []))
unfolding fetch_health_with_probe needs_probe
fetch_health_with_probe-pill first second h =
    go (ltb 0 first.configured && first.probes == 0) (some_pill-not_probed first)
  where
    go :
        (b : Bool)
        → (b ≡ false → some (update_status_pill first) ≢ some not_probed)
        → (pill_of
              (if◌then◌else◌ {A = Option Health × List HealthRequest} b
                (some second, ask_health ∷ ask_probe ∷ ask_health ∷ [])
                (some first, ask_health ∷ [])).0
            ≢ some not_probed)
          × ((if◌then◌else◌ {A = Option Health × List HealthRequest} b
                (some second, ask_health ∷ ask_probe ∷ ask_health ∷ [])
                (some first, ask_health ∷ [])).1
              ≡ (if b then ask_health ∷ ask_probe ∷ ask_health ∷ [] else ask_health ∷ []))
    go true f = (some_pill-not_probed second (ground arith), refl)
    go false f = (f refl, refl)
