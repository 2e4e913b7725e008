-- ===== src/Browse/Palette/Texts.antt =====
-- static/browse-palette.js: the texts of the palette's rows, and what the quick actions do.
use telegram_hls_streamer_v.Base.{
  ℕ, ◌/◌, ◌%◌, Bool, true, false, not, ◌||◌, ◌&&◌, List, [], ◌∷◌, ◌++◌, Option, none, some, zero,
  suc, if◌then◌else◌, ltb, leb, ◌==◌, filter,
}
use telegram_hls_streamer_v.Base.Decimal.{CodeUnits, codes, show}
use telegram_hls_streamer_v.Base.Regex.{Re, one, seq, maybe, at_end, remove_first}
use telegram_hls_streamer_v.Shared.Text.{trim, is_empty, join_text, includes, non_empty, same_text}
use telegram_hls_streamer_v.Shared.Names.{single_spaces}
use telegram_hls_streamer_v.Shared.Slug.{to_lower_case}
use telegram_hls_streamer_v.Browse.Palette.{
  Action, upload_a_video, open_settings, toggle_theme, Item, job_item, action_item, Job, Palette,
  activated,
}

-- `[a-z0-9]` under the flag `i`.
abbrev is_alphanumeric : ℕ → Bool
is_alphanumeric c = (leb 97 c && leb c 122) || (leb 65 c && leb c 90) || (leb 48 c && leb c 57)

-- `/\.[a-z0-9]{2,4}$/i`.
abbrev pub short_extension : Re
short_extension = seq (one (λ c. c == 46)) (
    seq (one is_alphanumeric) (
      seq (one is_alphanumeric)
        (seq (maybe (one is_alphanumeric)) (seq (maybe (one is_alphanumeric)) at_end))))

-- `replace(/[._]+/g, ' ')`; the flag says that a run is being replaced.
unfoldable pub dots_to_space : Bool → CodeUnits → CodeUnits
dots_to_space inside [] = []
dots_to_space inside (c ∷ cs) =
    let after_run = dots_to_space true cs in
    let after_other = dots_to_space false cs in
    if (c == 46) || (c == 95) then if inside then after_run else 32 ∷ after_run else c ∷ after_other

-- `cleanTitle` of this file.
unfoldable pub palette_clean_title : CodeUnits → CodeUnits
palette_clean_title name =
    trim (single_spaces false (dots_to_space false (remove_first short_extension name)))

-- `formatDur`, of a duration in milliseconds.
unfoldable pub format_dur : ℕ → CodeUnits
format_dur zero = []
format_dur (suc n) =
    if ltb 0 (suc n / 3600000)
    then show (suc n / 3600000) ++ codes "h " ++ show (suc n % 3600000 / 60000) ++ codes "m"
    else show (suc n % 3600000 / 60000) ++ codes "m"

-- A job as the server lists it; a field that is absent or null is the empty text or 0.
pub record ListedJob : Type 0 where
  pub job_id : CodeUnits
  pub filename : CodeUnits
  pub media_type : CodeUnits
  pub video_height : ℕ
  pub duration : ℕ
  pub is_series : Bool
  pub episode_count : Option ℕ
  pub series_name : CodeUnits

-- `cleanTitle(j.filename || j.job_id)`, and what else the row's path needs.
unfoldable pub palette_job : ListedJob → Job
palette_job j = record {
  job_id = j.job_id;
  title = palette_clean_title (if is_empty j.filename then j.job_id else j.filename);
  is_anime_tv = same_text j.media_type (codes "Anime TV");
  is_series = j.is_series;
  episode_count = j.episode_count;
  series_name = j.series_name;
}

-- The second line of a row, its parts joined by a middle dot between spaces.
unfoldable pub row_sub : ListedJob → CodeUnits
row_sub j = join_text (32 ∷ 183 ∷ 32 ∷ []) (
    non_empty (
      j.media_type
      ∷ (if j.video_height == 0 then [] else show j.video_height ++ codes "p")
      ∷ format_dur j.duration
      ∷ []))

-- The headings over the rows of jobs.
unfoldable pub jobs_heading : CodeUnits → CodeUnits
jobs_heading q = if is_empty q then codes "From your library" else codes "Best matches"

unfoldable pub action_title : Action → CodeUnits
action_title upload_a_video = codes "Upload a video"
action_title open_settings = codes "Open settings"
action_title toggle_theme = codes "Toggle dark / light"

abbrev pub all_actions : List Action
all_actions = upload_a_video ∷ open_settings ∷ toggle_theme ∷ []

unfoldable pub quick_actions : CodeUnits → List Action
quick_actions q =
    if is_empty q
    then all_actions
    else filter (λ a. includes (to_lower_case (action_title a)) (to_lower_case q)) all_actions

-- What Enter or a click brings about: another page, or the theme (`true` for dark), which is also stored.
pub data Effect : Type 0 where
  goes_to : CodeUnits → Effect
  sets_theme : Bool → Effect

-- `go` of an action; the flag says that the page is dark.
unfoldable pub go : Bool → Action → Effect
go dark upload_a_video = goes_to (codes "/upload")
go dark open_settings = goes_to (codes "/settings")
go dark toggle_theme = sets_theme (not dark)

unfoldable pub effect_of : Bool → Item → Effect
effect_of dark (job_item href) = goes_to href
effect_of dark (action_item a) = go dark a

unfoldable pub enter_effect : Bool → Palette → Option Effect
enter_effect dark p = elim (activated p) [ none ↦ none | some item ↦ some (effect_of dark item) ]
