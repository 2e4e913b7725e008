-- ===== src/Watch/Info.antt =====
-- static/watch.js: the panel of a video (renderInfoPanel), the videos like it (renderMoreLikeThis), and the
-- positions that are sent to the server. Texts are those that are shown, before the escaping of HTML.
pub mod Laws
use telegram_hls_streamer_v.Base.{
  ℕ, ◌+◌, ◌*◌, ◌/◌, ◌%◌, Bool, not, ◌&&◌, List, [], ◌∷◌, ◌++◌, Option, none, some, if◌then◌else◌,
  ltb, ◌==◌, filter, take, max, or_default,
}
use telegram_hls_streamer_v.Base.Decimal.{CodeUnits, codes, show}
use telegram_hls_streamer_v.Shared.Text.{is_empty, same_text, join_text, non_empty}
use telegram_hls_streamer_v.Shared.Names.{clean_title}
use telegram_hls_streamer_v.Shared.Format.{pad2, format_duration, format_bytes}
use telegram_hls_streamer_v.Watch.Progress.{Progress}

-- `job.external_metadata || {}`; an absent text is empty, an absent year 0, and the rating is in tenths, as it is shown.
pub record External : Type 0 where
  pub ext_title : CodeUnits
  pub overview : CodeUnits
  pub year : ℕ
  pub rating : ℕ
  pub backdrop_url : CodeUnits
  pub poster_url : CodeUnits

-- What the panel uses of the job; an absent count or height is 0.
pub record InfoJob : Type 0 where
  pub job_id : CodeUnits
  pub filename : CodeUnits
  pub media_type : CodeUnits
  pub series_name : CodeUnits
  pub is_series : Bool
  pub season_number : Option ℕ
  pub episode_number : Option ℕ
  pub part_number : Option ℕ
  pub video_height : ℕ
  pub video_codec : CodeUnits
  pub audio_count : ℕ
  pub subtitle_count : ℕ
  pub segment_count : ℕ
  pub total_bytes : Option ℕ
  pub duration : ℕ
  pub external : External

abbrev pub name_of : InfoJob → CodeUnits
name_of job = if is_empty job.filename then job.job_id else job.filename

unfoldable pub display_title : InfoJob → CodeUnits
display_title job =
    if not (is_empty job.external.ext_title) && not (same_text job.external.ext_title job.filename)
    then job.external.ext_title
    else clean_title (name_of job)

unfoldable pub backdrop : InfoJob → CodeUnits
backdrop job =
    if is_empty job.external.backdrop_url
    then job.external.poster_url
    else job.external.backdrop_url

abbrev text_if : Bool → CodeUnits → CodeUnits
text_if b t = if b then t else []

abbrev height_part : InfoJob → CodeUnits
height_part job = text_if (ltb 0 job.video_height) (show job.video_height ++ codes "p")

-- A middle dot between spaces.
abbrev dot : CodeUnits
dot = 32 ∷ 183 ∷ 32 ∷ []

unfoldable pub eyebrow_parts : InfoJob → List CodeUnits
eyebrow_parts job = non_empty (
    job.media_type
    ∷ text_if (ltb 0 job.external.year) (show job.external.year)
    ∷ height_part job
    ∷ text_if (ltb 0 job.subtitle_count) (codes "SUB" ++ dot ++ show job.subtitle_count)
    ∷ text_if (ltb 1 job.audio_count) (codes "AUDIO" ++ dot ++ show job.audio_count)
    ∷ [])

abbrev episode_part : Option ℕ → Option ℕ → Option ℕ → CodeUnits
episode_part (some s) (some e) part = codes "S" ++ pad2 s ++ codes "E" ++ pad2 e
episode_part (some s) none none = []
episode_part none e none = []
episode_part (some s) none (some p) = codes "Part " ++ show p
episode_part none e (some p) = codes "Part " ++ show p

-- Of these parts none that is pushed is empty.
unfoldable pub meta_parts : InfoJob → List CodeUnits
meta_parts job = non_empty (
    text_if (ltb 0 job.duration) (format_duration job.duration)
    ∷ height_part job
    ∷ job.video_codec
    ∷ text_if (ltb 0 job.external.rating) (
        9733 ∷ 32 ∷ show (job.external.rating / 10) ++ codes "." ++ show (job.external.rating % 10))
    ∷ text_if (not (is_empty job.series_name) && job.is_series)
        (episode_part job.season_number job.episode_number job.part_number)
    ∷ [])

unfoldable pub overview_text : InfoJob → CodeUnits
overview_text job =
    if not (is_empty job.external.overview)
    then job.external.overview
    else text_if (not (is_empty job.series_name)) (codes "From " ++ job.series_name ++ codes ".")

-- What the first button says, from the entry of the job in localStorage: the position to resume at, in seconds.
unfoldable pub resume_at : Option Progress → Option ℕ
resume_at none = none
resume_at (some saved) = if ltb 5 saved.seconds then some saved.seconds else none

unfoldable pub resume_label : Option Progress → CodeUnits
resume_label saved = elim (resume_at saved) [
  | none ↦ codes "Play"
  | some seconds ↦ codes "Resume at " ++ format_duration (seconds * 1000)
]

-- `|| '—'`.
abbrev or_dash : CodeUnits → CodeUnits
or_dash [] = 8212 ∷ []
or_dash (c ∷ cs) = c ∷ cs

abbrev tracks : ℕ → CodeUnits
tracks n =
    or_dash (text_if (ltb 0 n) (show n ++ codes " track" ++ text_if (not (n == 1)) (codes "s")))

abbrev bytes_text : Option ℕ → CodeUnits
bytes_text none = []
bytes_text (some n) = format_bytes n

-- The rows of "File details".
unfoldable pub file_rows : InfoJob → List (CodeUnits × CodeUnits)
file_rows job =
    (codes "Original", name_of job)
    ∷ (
      codes "Stored",
      or_dash (
          join_text dot (
            non_empty (
              text_if (ltb 0 job.segment_count) (show job.segment_count ++ codes " segments")
              ∷ bytes_text job.total_bytes
              ∷ []))),
    )
    ∷ (codes "Codec", or_dash (join_text dot (non_empty (job.video_codec ∷ height_part job ∷ []))))
    ∷ (codes "Audio", tracks job.audio_count)
    ∷ (codes "Subtitles", tracks job.subtitle_count)
    ∷ (codes "Job ID", job.job_id)
    ∷ []

-- A job of the reply to the request for more, and its card.
pub record MoreJob : Type 0 where
  pub more_id : CodeUnits
  pub more_filename : CodeUnits
  pub more_duration : ℕ

unfoldable pub more_category : InfoJob → CodeUnits
more_category job = if is_empty job.media_type then codes "Film" else job.media_type

-- The jobs that are shown; without any the part is left empty.
unfoldable pub more_like_this : CodeUnits → Option (List MoreJob) → List MoreJob
more_like_this id none = []
more_like_this id (some jobs) = take 8 (filter (λ (j : MoreJob). not (same_text j.more_id id)) jobs)

unfoldable pub more_card : MoreJob → CodeUnits × CodeUnits
more_card j = (
  clean_title (if is_empty j.more_filename then j.more_id else j.more_filename),
  format_duration j.more_duration,
)

-- The body of serverSaveProgress, in milliseconds, and what `ended`, `pause` and `seeked` send. A duration of the video
-- that is not known is 0.
pub record Report : Type 0 where
  pub position : ℕ
  pub total : ℕ

unfoldable pub server_save_progress : ℕ → ℕ → Report
server_save_progress position duration = record {
  position = max 0 position;
  total = max 1000 duration;
}

unfoldable pub on_ended : ℕ → Report
on_ended duration = server_save_progress duration duration

unfoldable pub on_pause : ℕ → ℕ → ℕ → Report
on_pause position duration known = server_save_progress position (or_default (some duration) known)
