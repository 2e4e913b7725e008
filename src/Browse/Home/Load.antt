-- ===== src/Browse/Home/Load.antt =====
-- static/browse-home.js: what the home page asks the server for, the check of the bots that comes with it, and the rows.
pub mod Laws
use telegram_hls_streamer_v.Base.{
  Bool, true, false, ◌&&◌, List, [], ◌∷◌, ◌++◌, Option, none, some, if◌then◌else◌, ltb, ◌==◌, map,
}
use telegram_hls_streamer_v.Base.Decimal.{CodeUnits, codes}
use telegram_hls_streamer_v.Browse.Home.{Health}

-- The five slices of jobs; each is twelve jobs of the first page.
pub data Slice : Type 0 where
  recent_slice : Slice
  film_slice : Slice
  series_slice : Slice
  anime_film_slice : Slice
  anime_tv_slice : Slice

unfoldable pub slice_params : Slice → List (CodeUnits × CodeUnits)
slice_params recent_slice = []
slice_params film_slice = (codes "category", codes "Film") ∷ []
slice_params series_slice =
    (codes "category", codes "Series") ∷ (codes "group_by", codes "series") ∷ []
slice_params anime_film_slice = (codes "category", codes "Anime Film") ∷ []
slice_params anime_tv_slice =
    (codes "category", codes "Anime TV") ∷ (codes "group_by", codes "series") ∷ []

unfoldable pub fetch_slice : Slice → List (CodeUnits × CodeUnits)
fetch_slice s = (codes "page", codes "1") ∷ (codes "limit", codes "12") ∷ slice_params s

-- fetchHealthWithProbe: the replies to the first request, to the request to probe and to the second one, where `none` and
-- `false` stand for a failure; and what was asked for.
pub data HealthRequest : Type 0 where
  ask_health : HealthRequest
  ask_probe : HealthRequest

unfoldable pub needs_probe : Health → Bool
needs_probe h = ltb 0 h.configured && h.probes == 0

abbrev second_health : Health → Bool → Option Health → Health
second_health first true (some second) = second
second_health first _ _ = first

abbrev probe_requests : Bool → List HealthRequest
probe_requests true = ask_probe ∷ ask_health ∷ []
probe_requests false = ask_probe ∷ []

unfoldable pub fetch_health_with_probe :
    Option Health → Bool → Option Health → Option Health × List HealthRequest
fetch_health_with_probe none probed second = (none, ask_health ∷ [])
fetch_health_with_probe (some first) probed second =
    if needs_probe first
    then (some (second_health first probed second), ask_health ∷ probe_requests probed)
    else (some first, ask_health ∷ [])

-- A row of the page: its title, the link "See all", its jobs, and whether posters are preferred.
pub record HomeRow {ℓ} (A : Type ℓ) : Type ℓ where
  pub row_title : CodeUnits
  pub see_all : Option CodeUnits
  pub row_jobs : List A
  pub use_poster : Bool

-- What Promise.all waits for, apart from the health, which never fails.
pub record Slices {ℓ} (A : Type ℓ) : Type ℓ where
  pub recent : List A
  pub films : List A
  pub series : List A
  pub anime_films : List A
  pub anime_tv : List A

module _ {ℓ} {A : Type ℓ} where
  abbrev row_if : CodeUnits → Option CodeUnits → Bool → List A → List (HomeRow A)
  row_if title see poster [] = []
  row_if title see poster (j ∷ js) =
      record { row_title = title; see_all = see; row_jobs = j ∷ js; use_poster = poster } ∷ []

  -- renderRows, from the slices, the jobs to continue watching, and the recent ones with their progress.
  unfoldable pub render_rows : Slices A → List A → (A → A) → List (HomeRow A)
  render_rows s watching annotate =
      row_if (codes "Continue Watching") none false watching
      ++ row_if (codes "Recently Added") none false (map annotate s.recent)
      ++ row_if (codes "Films") (some (codes "/films")) false s.films
      ++ row_if (codes "Series") (some (codes "/series")) false s.series
      ++ row_if (codes "Anime") none true (s.anime_films ++ s.anime_tv)

infixl 5 ◌>>=◌
abbrev ◌>>=◌ {ℓ κ} : {A : Type ℓ} {B : Type κ} → Option A → (A → Option B) → Option B
none >>= f = none
some a >>= f = f a

-- The page: an error if a slice failed, or its rows; without any the page says that there are no videos.
pub data HomePage {ℓ} (A : Type ℓ) : Type ℓ where
  not_loaded : HomePage A
  no_videos : HomePage A
  rows : List (HomeRow A) → HomePage A

module _ {ℓ} {A : Type ℓ} where
  abbrev pub rows_or_none : List (HomeRow A) → HomePage A
  rows_or_none [] = no_videos
  rows_or_none (r ∷ rs) = rows (r ∷ rs)

  unfoldable pub all_slices : (Slice → Option (List A)) → Option (Slices A)
  all_slices reply = do
    recent ← reply recent_slice
    films ← reply film_slice
    series ← reply series_slice
    anime_films ← reply anime_film_slice
    anime_tv ← reply anime_tv_slice
    some (record {
      recent = recent;
      films = films;
      series = series;
      anime_films = anime_films;
      anime_tv = anime_tv;
    })

  unfoldable pub home_page : (Slice → Option (List A)) → (List A → List A) → (A → A) → HomePage A
  home_page reply watching annotate = elim (all_slices reply) [
    | none ↦ not_loaded
    | some s ↦ rows_or_none (render_rows s (watching (map annotate s.recent)) annotate)
  ]
