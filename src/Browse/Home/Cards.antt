-- ===== src/Browse/Home/Cards.antt =====
-- static/browse-home.js: the cards of the rows, and the text over a spotlight.
use telegram_hls_streamer_v.Base.{
  ℕ, Bool, true, false, not, ◌&&◌, ◌||◌, List, [], ◌∷◌, ◌++◌, Option, none, some, if◌then◌else◌,
  ltb, ◌==◌,
}
use telegram_hls_streamer_v.Base.Decimal.{CodeUnits, codes, show}
use telegram_hls_streamer_v.Shared.Text.{is_empty, same_text, non_empty}
use telegram_hls_streamer_v.Shared.Slug.{slugify_short}
use telegram_hls_streamer_v.Shared.Names.{palette_esc}
use telegram_hls_streamer_v.Shared.Format.{pad2}
use telegram_hls_streamer_v.Browse.Palette.Texts.{palette_clean_title, format_dur}
use telegram_hls_streamer_v.Browse.Cards.{CardJob, Card, or_units}

-- What the cards of a row are made for.
pub data RowKind : Type 0 where
  video_row : RowKind
  series_row : RowKind
  mixed_row : RowKind

unfoldable pub is_series_card : RowKind → CardJob → Bool
is_series_card video_row j = false
is_series_card series_row j = true
is_series_card mixed_row j = ltb 0 j.episode_count || not (is_empty j.series_name)

abbrev pub home_title : CardJob → CodeUnits
home_title j = palette_clean_title (or_units j.filename j.job_id)

-- seriesCardHtml.
unfoldable pub home_series_name : CardJob → CodeUnits
home_series_name j = or_units j.series_name (home_title j)

unfoldable pub home_series_href : CardJob → CodeUnits
home_series_href j =
    (if same_text j.media_type (codes "Anime TV") then codes "/anime-tv" else codes "/series")
    ++ codes "/"
    ++ slugify_short (home_series_name j)

unfoldable pub home_series_card : CardJob → Card
home_series_card j = record {
  href = home_series_href j;
  title = home_series_name j;
  subtitle =
      (show j.episode_count ++ codes " episode" ++ (if j.episode_count == 1 then [] else codes "s"))
      ∷ [];
  thumb_duration = [];
  bar = none;
}

abbrev season_episode : Option ℕ → Option ℕ → CodeUnits
season_episode (some s) (some e) = codes "S" ++ pad2 s ++ codes "E" ++ pad2 e
season_episode (some s) none = []
season_episode none e = []

abbrev height_label : ℕ → CodeUnits
height_label h = if h == 0 then [] else show h ++ codes "p"

unfoldable pub home_video_card : CardJob → Card
home_video_card j = record {
  href = codes "/watch/" ++ palette_esc j.job_id;
  title = home_title j;
  subtitle = non_empty (
      j.media_type
      ∷ season_episode j.season_number j.episode_number
      ∷ height_label j.video_height
      ∷ []);
  thumb_duration = format_dur j.duration;
  bar = if ltb 0 j.progress_pct && ltb j.progress_pct 100 then some j.progress_pct else none;
}

-- cardHtml.
unfoldable pub home_card : RowKind → CardJob → Card
home_card kind j = if is_series_card kind j then home_series_card j else home_video_card j

-- The picture of a card: the poster, where it is preferred, or else the thumbnail.
unfoldable pub home_thumb : Bool → CardJob → CodeUnits
home_thumb use_poster j =
    or_units (if use_poster then j.poster_url else [])
      (if j.has_thumbnail then codes "/thumbnail/" ++ palette_esc j.job_id else [])

-- heroBodyHtml.
pub record HeroBody : Type 0 where
  pub hero_title : CodeUnits
  pub hero_metas : List CodeUnits
  pub hero_href : CodeUnits

unfoldable pub hero_body : CardJob → HeroBody
hero_body j = record {
  hero_title = home_title j;
  hero_metas = non_empty (j.media_type ∷ height_label j.video_height ∷ format_dur j.duration ∷ []);
  hero_href = codes "/watch/" ++ palette_esc j.job_id;
}
