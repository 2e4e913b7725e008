-- ===== src/Watch/Edit.antt =====
-- static/watch.js: the dialog that edits a job's data.
pub mod Laws
use telegram_hls_streamer_v.Base.{
  Bool, true, false, not, ◌&&◌, [], ◌∷◌, if◌then◌else◌, Option, none, some, Numeric, integer,
  negative, not_integer, suc,
}
use telegram_hls_streamer_v.Base.Decimal.{CodeUnits, codes, show}
use telegram_hls_streamer_v.Shared.Text.{trim, parse_int, is_empty}
use telegram_hls_streamer_v.Shared.Names.{clean_title}
use telegram_hls_streamer_v.Shared.Category.{
  Category, film, film_series, tv_series, anime_film, anime_tv, anime_tv_series, MediaType,
  film_media, series_media, anime_film_media, anime_tv_media, other_media, category_db, is_single,
  is_episodic,
}

-- The fields of `currentJob` that the dialog reads and writes; `none` is null.
pub record Job : Type 0 where
  pub job_id : CodeUnits
  pub filename : CodeUnits
  pub media_type : MediaType
  pub is_series : Bool
  pub series_name : CodeUnits
  pub season_number : Option Numeric
  pub episode_number : Option Numeric
  pub part_number : Option Numeric

-- The inputs of the dialog.
pub record Form : Type 0 where
  pub title : CodeUnits
  pub category : Category
  pub series : CodeUnits
  pub season : CodeUnits
  pub episode : CodeUnits
  pub part : CodeUnits

-- Which groups of inputs are shown.
pub record Groups : Type 0 where
  pub series_group : Bool
  pub season_group : Bool
  pub episode_group : Bool
  pub part_group : Bool

abbrev pub is_film_series : Category → Bool
is_film_series film_series = true
is_film_series _ = false

unfoldable pub update_edit_modal_fields : Category → Groups
update_edit_modal_fields cat =
    if is_film_series cat
    then record {
      series_group = true;
      season_group = false;
      episode_group = false;
      part_group = true;
    }
    else if is_episodic cat
    then record {
      series_group = true;
      season_group = true;
      episode_group = true;
      part_group = false;
    }
    else record {
      series_group = false;
      season_group = false;
      episode_group = false;
      part_group = false;
    }

category_of : MediaType → Bool → Category
category_of film_media is_series = if is_series then film_series else film
category_of series_media is_series = tv_series
category_of anime_film_media is_series = anime_film
category_of anime_tv_media is_series = if is_series then anime_tv_series else anime_tv
category_of other_media is_series = film

unfoldable pub get_category_from_job : Job → Category
unfolding category_of
get_category_from_job job = category_of job.media_type job.is_series

-- `String(n)` of a number field; a job's numbers are integers or NaN.
abbrev pub show_numeric : Numeric → CodeUnits
show_numeric (integer n) = show n
show_numeric (negative n) = 45 ∷ show (suc n)
show_numeric not_integer = codes "NaN"

abbrev pub number_text : Option Numeric → CodeUnits
number_text none = []
number_text (some n) = show_numeric n

unfoldable pub open_edit_modal : Job → Form
open_edit_modal job = record {
  title = clean_title (if is_empty job.filename then job.job_id else job.filename);
  category = get_category_from_job job;
  series = job.series_name;
  season = number_text job.season_number;
  episode = number_text job.episode_number;
  part = number_text job.part_number;
}

-- The body of the request: a field that it does not have is `none`.
pub record Payload : Type 0 where
  pub title : CodeUnits
  pub media_type : MediaType
  pub is_series : Bool
  pub series_name : CodeUnits
  pub part_number : Option CodeUnits
  pub season_number : Option CodeUnits
  pub episode_number : Option CodeUnits

unfoldable pub payload_of : Form → Payload
payload_of form = record {
  title = trim form.title;
  media_type = (category_db form.category).media_type;
  is_series = (category_db form.category).is_series;
  series_name = trim form.series;
  part_number = if is_film_series form.category then some form.part else none;
  season_number =
      if not (is_film_series form.category) && is_episodic form.category
      then some form.season
      else none;
  episode_number =
      if not (is_film_series form.category) && is_episodic form.category
      then some form.episode
      else none;
}

-- `if (payload.n !== undefined) job.n = payload.n ? parseInt(payload.n) : null`.
abbrev pub take_number : Option CodeUnits → Option Numeric → Option Numeric
take_number none old = old
take_number (some []) old = none
take_number (some (c ∷ cs)) old = some (parse_int (c ∷ cs))

-- The job after the server accepted the request.
unfoldable pub apply_payload : Category → Payload → Job → Job
apply_payload cat p job = record {
  job_id = job.job_id;
  filename = if is_empty p.title then job.filename else p.title;
  media_type = p.media_type;
  is_series = p.is_series;
  series_name = if is_single cat then [] else p.series_name;
  season_number = if is_episodic cat then take_number p.season_number job.season_number else none;
  episode_number =
      if is_episodic cat then take_number p.episode_number job.episode_number else none;
  part_number = if is_film_series cat then take_number p.part_number job.part_number else none;
}

-- saveEditModal, by whether the server accepts; a refusal is shown and leaves the job.
unfoldable pub save_edit_modal : Form → Bool → Job → Job
save_edit_modal form true job = apply_payload form.category (payload_of form) job
save_edit_modal form false job = job
