-- ===== src/Browse/Cards.antt =====
-- static/browse.js: what the cards and the rows of the pages show, and the chips.
pub mod Laws
pub mod Heads
use telegram_hls_streamer_v.Base.{
  ℕ, suc, ◌+◌, ◌-◌, Bool, not, ◌||◌, ◌&&◌, List, [], ◌∷◌, ◌++◌, Option, none, some, if◌then◌else◌,
  ltb, ◌==◌, length,
}
use telegram_hls_streamer_v.Base.Decimal.{CodeUnits, codes, show}
use telegram_hls_streamer_v.Shared.Text.{is_empty, same_text}
use telegram_hls_streamer_v.Shared.Slug.{slugify}
use telegram_hls_streamer_v.Shared.Names.{clean_title, escape_attr}
use telegram_hls_streamer_v.Shared.Format.{pad2, format_duration}
use telegram_hls_streamer_v.Browse.Request.{Context}

-- A job as /api/jobs lists it; an absent text is empty, an absent height or count is 0.
pub record CardJob : Type 0 where
  pub job_id : CodeUnits
  pub filename : CodeUnits
  pub media_type : CodeUnits
  pub series_name : CodeUnits
  pub episode_title : CodeUnits
  pub season_number : Option ℕ
  pub episode_number : Option ℕ
  pub part_number : Option ℕ
  pub episode_count : ℕ
  pub video_height : ℕ
  pub audio_count : ℕ
  pub duration : ℕ
  pub has_thumbnail : Bool
  pub poster_url : CodeUnits
  pub progress_pct : ℕ

-- `a || b` on texts.
abbrev pub or_units : CodeUnits → CodeUnits → CodeUnits
or_units [] b = b
or_units (c ∷ cs) b = c ∷ cs

-- CATEGORY_PATHS of shared.js, and `CATEGORY_PATHS[category] || '/'`.
unfoldable pub browse_path : CodeUnits → CodeUnits
browse_path category =
    if same_text category (codes "Film")
    then codes "/films"
    else if same_text category (codes "Series")
    then codes "/series"
    else if same_text category (codes "Anime Film")
    then codes "/anime-films"
    else if same_text category (codes "Anime TV")
    then codes "/anime-tv"
    else codes "/"

-- `thumbSrc`; the empty text stands for null.
unfoldable pub thumb_src : Context → CardJob → CodeUnits
thumb_src ctx j =
    or_units
      (if same_text ctx.category (codes "Anime TV") || same_text ctx.category (codes "Anime Film")
        then j.poster_url
        else [])
      (if j.has_thumbnail then codes "/thumbnail/" ++ escape_attr j.job_id else [])

-- The three kinds of card.
unfoldable pub series_href : Context → CardJob → CodeUnits
series_href ctx j = escape_attr (
    browse_path ctx.category
    ++ codes "/"
    ++ slugify (or_units j.series_name (codes "Unknown Series")))

unfoldable pub season_path : Option ℕ → CodeUnits
season_path none = codes "/specials"
season_path (some n) = codes "/s" ++ show n

unfoldable pub season_href : Context → CodeUnits → CardJob → CodeUnits
season_href ctx series_slug j = escape_attr (
    browse_path ctx.category
    ++ codes "/"
    ++ or_units series_slug (slugify ctx.series_name)
    ++ season_path j.season_number)

unfoldable pub season_label : Option ℕ → CodeUnits
season_label none = codes "Specials"
season_label (some n) = codes "Season " ++ show n

abbrev pub plural : ℕ → CodeUnits → CodeUnits
plural n word = show n ++ codes " " ++ word ++ (if n == 1 then [] else codes "s")

unfoldable pub video_href : CardJob → CodeUnits
video_href j = codes "/watch/" ++ escape_attr j.job_id

-- The part of `subtitleParts` that names the episode, or the part of a film.
unfoldable pub episode_parts : Option ℕ → Option ℕ → Option ℕ → List CodeUnits
episode_parts (some s) (some e) part = (codes "S" ++ pad2 s ++ codes "E" ++ pad2 e) ∷ []
episode_parts none (some e) part = (codes "Ep " ++ show e) ∷ []
episode_parts season none (some p) = (codes "Part " ++ show p) ∷ []
episode_parts season none none = []

abbrev one_if : Bool → CodeUnits → List CodeUnits
one_if b t = if b then t ∷ [] else []

unfoldable pub subtitle_parts : CardJob → List CodeUnits
subtitle_parts j =
    one_if (not (is_empty j.media_type)) j.media_type
    ++ episode_parts j.season_number j.episode_number j.part_number
    ++ one_if (ltb 0 j.video_height) (show j.video_height ++ codes "p")

-- What a card shows; the bar of progress only strictly between 0 and 100.
pub record Card : Type 0 where
  pub href : CodeUnits
  pub title : CodeUnits
  pub subtitle : List CodeUnits
  pub thumb_duration : CodeUnits
  pub bar : Option ℕ

unfoldable pub video_card : CardJob → Card
video_card j = record {
  href = video_href j;
  title = clean_title (or_units j.filename j.job_id);
  subtitle = subtitle_parts j;
  thumb_duration = format_duration j.duration;
  bar = if ltb 0 j.progress_pct && ltb j.progress_pct 100 then some j.progress_pct else none;
}

unfoldable pub series_card : Context → CardJob → Card
series_card ctx j = record {
  href = series_href ctx j;
  title = or_units j.series_name (codes "Unknown Series");
  subtitle = codes "Series" ∷ [];
  thumb_duration = [];
  bar = none;
}

unfoldable pub season_card : Context → CodeUnits → CardJob → Card
season_card ctx series_slug j = record {
  href = season_href ctx series_slug j;
  title = season_label j.season_number;
  subtitle = plural j.episode_count (codes "Episode") ∷ [];
  thumb_duration = [];
  bar = none;
}

-- A row of renderEpisodeRow; the second argument is the entry of the job in the stored progress.
unfoldable pub episode_code : CardJob → CodeUnits
episode_code j = elim j.episode_number [
  | none ↦ []
  | some e ↦ elim j.season_number [
    | none ↦ codes "Ep " ++ show e
    | some s ↦ codes "S" ++ pad2 s ++ 183 ∷ codes "E" ++ pad2 e
  ]
]

abbrev row_bar : Option ℕ → Option ℕ
row_bar none = none
row_bar (some pct) = if ltb 1 pct && ltb pct 95 then some pct else none

unfoldable pub episode_row : Option ℕ → CardJob → Card
episode_row stored j = record {
  href = video_href j;
  title = or_units j.episode_title (clean_title (or_units j.filename j.job_id));
  subtitle =
      episode_code j
      ∷ (j.media_type
          ++ (if j.video_height == 0 then [] else 32 ∷ 183 ∷ 32 ∷ show j.video_height ++ codes "p")
          ++ (if j.audio_count == 0
              then []
              else 32 ∷ 183 ∷ 32 ∷ plural j.audio_count (codes "audio track")))
      ∷ [];
  thumb_duration = format_duration j.duration;
  bar = row_bar stored;
}

-- `seasonSummary`.
unfoldable pub season_summary : Option ℕ → ℕ → CodeUnits
season_summary season count = season_label season ++ 32 ∷ 183 ∷ 32 ∷ plural count (codes "episode")

-- The chips by whether they are pressed; the last one sorts and is left alone by a click on any.
abbrev pub press_from : ℕ → ℕ → List Bool → List Bool
press_from j i [] = []
press_from j i (b ∷ []) = b ∷ []
press_from j i (b ∷ c ∷ cs) = (j == i) ∷ press_from (suc j) i (c ∷ cs)

unfoldable pub click_chip : ℕ → List Bool → List Bool
click_chip i chips = if i == length chips - 1 then chips else press_from 0 i chips

unfoldable pub click_chips : List ℕ → List Bool → List Bool
click_chips [] chips = chips
click_chips (i ∷ is) chips = click_chips is (click_chip i chips)
