-- ===== src/Watch/Navigation.antt =====
-- static/watch.js: the breadcrumb, and the links to the episodes before and after.
pub mod Laws
use telegram_hls_streamer_v.Base.{
  ℕ, zero, suc, ◌-◌, Bool, true, false, List, [], ◌∷◌, ◌++◌, Option, none, some, if◌then◌else◌,
  String, str_eq, ltb, length, get_elem?, or_default,
}
use telegram_hls_streamer_v.Base.Decimal.{CodeUnits, codes, show}
use telegram_hls_streamer_v.Base.Sorting.{sort_by}
use telegram_hls_streamer_v.Shared.Category.{
  MediaType, film_media, series_media, anime_film_media, anime_tv_media, other_media,
}
use telegram_hls_streamer_v.Shared.Slug.{slugify}
use telegram_hls_streamer_v.Shared.Text.{is_empty}

-- What the page uses of a job of the series.
pub record Sibling : Type 0 where
  pub job_id : String
  pub season_number : Option ℕ
  pub episode_number : Option ℕ
  pub part_number : Option ℕ

abbrev pub part_key : Sibling → ℕ
part_key s = or_default s.part_number 0

abbrev pub episode_key : Sibling → ℕ
episode_key s = or_default s.episode_number 0

-- The list that fetchSiblings makes of the reply to a job with a series; `none` stands for a request that
-- failed.
unfoldable pub fetch_siblings : MediaType → Bool → Option (List Sibling) → List Sibling
fetch_siblings media false reply = []
fetch_siblings media true none = []
fetch_siblings film_media true (some jobs) = sort_by part_key jobs
fetch_siblings _ true (some jobs) = sort_by episode_key jobs

-- The `season_number` of the request, if it has one.
unfoldable pub season_asked : MediaType → Option ℕ → Option ℕ
season_asked film_media season = none
season_asked _ season = season

-- `siblings.findIndex`.
unfoldable pub find_index : String → List Sibling → Option ℕ
find_index id [] = none
find_index id (s ∷ ss) =
    let rest = find_index id ss in
    if str_eq s.job_id id then some zero else elim rest [ none ↦ none | some i ↦ some (suc i) ]

-- The two links; `none` is the spacer.
pub record EpisodeNav : Type 0 where
  pub prev : Option Sibling
  pub next : Option Sibling

unfoldable pub prev_of : List Sibling → ℕ → Option Sibling
prev_of siblings zero = none
prev_of siblings (suc i) = get_elem? siblings i

unfoldable pub next_of : List Sibling → ℕ → Option Sibling
next_of siblings i = if ltb i (length siblings - 1) then get_elem? siblings (suc i) else none

-- `!prev && !next`.
abbrev pub shown_nav : Option Sibling → Option Sibling → Option EpisodeNav
shown_nav none none = none
shown_nav p n = some (record { prev = p; next = n })

abbrev pub nav_at : List Sibling → Option ℕ → Option EpisodeNav
nav_at siblings none = none
nav_at siblings (some i) = shown_nav (prev_of siblings i) (next_of siblings i)

unfoldable pub render_episode_nav : String → List Sibling → Option EpisodeNav
render_episode_nav id siblings =
    if ltb (length siblings) 2 then none else nav_at siblings (find_index id siblings)

-- The links on the page of a job with a series; `server` answers a request for that series and type.
unfoldable pub page_nav :
    MediaType → (Option ℕ → Option (List Sibling)) → Sibling → Option EpisodeNav
page_nav media server job =
    render_episode_nav job.job_id
      (fetch_siblings media true (server (season_asked media job.season_number)))

-- A part of the breadcrumb: its label, and its path if it is a link.
pub record Crumb : Type 0 where
  pub label : CodeUnits
  pub href : Option CodeUnits

-- The job's fields that the breadcrumb shows.
pub record Place : Type 0 where
  pub media_type : MediaType
  pub is_series : Bool
  pub series_name : CodeUnits
  pub season_number : Option ℕ

-- `catLabels`, and CATEGORY_PATHS with what stands for another type; its label is the type's own name.
abbrev pub cat_label : MediaType → CodeUnits → CodeUnits
cat_label film_media name = codes "Films"
cat_label series_media name = codes "Series"
cat_label anime_film_media name = codes "Anime Films"
cat_label anime_tv_media name = codes "Anime TV"
cat_label other_media [] = codes "Home"
cat_label other_media (c ∷ cs) = c ∷ cs

abbrev pub category_path : MediaType → CodeUnits
category_path film_media = codes "/films"
category_path series_media = codes "/series"
category_path anime_film_media = codes "/anime-films"
category_path anime_tv_media = codes "/anime-tv"
category_path other_media = codes "/"

abbrev pub has_seasons : MediaType → Bool
has_seasons series_media = true
has_seasons anime_tv_media = true
has_seasons _ = false

unfoldable pub season_crumb : CodeUnits → Option ℕ → Crumb
season_crumb base none = record {
  label = codes "Specials";
  href = some (base ++ codes "/specials");
}
season_crumb base (some n) = record {
  label = codes "Season " ++ show n;
  href = some (base ++ codes "/s" ++ show n);
}

unfoldable pub series_crumbs : Place → List Crumb
series_crumbs p =
    if has_seasons p.media_type
    then record {
      label = p.series_name;
      href = some (category_path p.media_type ++ codes "/" ++ slugify p.series_name);
    }
      ∷ season_crumb (category_path p.media_type ++ codes "/" ++ slugify p.series_name)
          p.season_number
      ∷ []
    else record { label = p.series_name; href = none } ∷ []

-- `crumbs` of renderWatchBreadcrumb, given the name of the job's type.
unfoldable pub watch_breadcrumb : CodeUnits → Place → List Crumb
watch_breadcrumb name p =
    let rest = series_crumbs p in
    record { label = cat_label p.media_type name; href = some (category_path p.media_type) }
    ∷ (if p.is_series then if is_empty p.series_name then [] else rest else [])
