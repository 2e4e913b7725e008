-- ===== src/Browse/Cards/Heads.antt =====
-- static/browse.js: the head of a page: its title, the series, the breadcrumbs.
use telegram_hls_streamer_v.Base.{
  ℕ, ◌+◌, List, [], ◌∷◌, ◌++◌, Option, none, some, if◌then◌else◌, ltb, length, find?,
}
use telegram_hls_streamer_v.Base.Decimal.{CodeUnits, codes}
use telegram_hls_streamer_v.Shared.Text.{is_empty, same_text}
use telegram_hls_streamer_v.Shared.Names.{clean_title, escape_attr}
use telegram_hls_streamer_v.Browse.Request.{Context, grid, series_list, seasons, episodes}
use telegram_hls_streamer_v.Browse.Cards.{CardJob, or_units, plural}

-- renderSeriesDetailHeader.
pub record SeriesHeader : Type 0 where
  pub header_title : CodeUnits
  pub root : CodeUnits
  pub episodes_text : CodeUnits
  pub seasons_text : CodeUnits
  pub resume_href : CodeUnits

unfoldable pub total_episodes : List CardJob → ℕ
total_episodes [] = 0
total_episodes (j ∷ js) = j.episode_count + total_episodes js

abbrev first_of : List CardJob → Option CardJob
first_of [] = none
first_of (j ∷ js) = some j

unfoldable pub sample_of : List CardJob → Option CardJob
sample_of js = elim (find? (λ (j : CardJob). j.has_thumbnail) js) [
  | none ↦ first_of js
  | some j ↦ some j
]

unfoldable pub sample_name : Option CardJob → CodeUnits
sample_name none = clean_title []
sample_name (some j) = clean_title j.filename

unfoldable pub resume_link : Option CardJob → CodeUnits
resume_link none = codes "#"
resume_link (some j) =
    if is_empty j.job_id then codes "#" else codes "/watch/" ++ escape_attr j.job_id

unfoldable pub series_header : Context → List CardJob → SeriesHeader
series_header ctx js = record {
  header_title = or_units ctx.series_name (sample_name (sample_of js));
  root = if same_text ctx.category (codes "Anime TV") then codes "/anime-tv" else codes "/series";
  episodes_text = plural (total_episodes js) (codes "episode");
  seasons_text = plural (length js) (codes "season");
  resume_href = resume_link (sample_of js);
}

-- The head of renderJobs: what the page is called.
unfoldable pub category_label : CodeUnits → CodeUnits
category_label category =
    if same_text category (codes "all")
    then codes "All Videos"
    else if same_text category (codes "Film")
    then codes "Films"
    else if same_text category (codes "Anime Film")
    then codes "Anime Films"
    else category

unfoldable pub section_title : Context → CodeUnits
section_title ctx = elim ctx.view [
  | grid ↦ category_label ctx.category
  | series_list ↦ category_label ctx.category
  | seasons ↦ or_units ctx.series_name (category_label ctx.category)
  | episodes ↦ category_label ctx.category
]

-- renderBreadcrumbs: the last crumb is no link, and a single one is not shown.
pub record PageCrumb : Type 0 where
  pub label : CodeUnits
  pub link : CodeUnits

abbrev crumbs_from : List PageCrumb → List (CodeUnits × Option CodeUnits)
crumbs_from [] = []
crumbs_from (c ∷ []) = (c.label, none) ∷ []
crumbs_from (c ∷ d ∷ ds) =
    (c.label, some (escape_attr (or_units c.link (codes "/")))) ∷ crumbs_from (d ∷ ds)

unfoldable pub render_breadcrumbs : List PageCrumb → List (CodeUnits × Option CodeUnits)
render_breadcrumbs crumbs = if ltb 1 (length crumbs) then crumbs_from crumbs else []
