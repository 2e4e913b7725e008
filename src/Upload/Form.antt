-- ===== src/Upload/Form.antt =====
-- static/upload.js: the table of metadata, its validation, and the request made from it.
pub mod Laws
use telegram_hls_streamer_v.Base.{
  ℕ, Bool, true, false, not, ◌&&◌, ◌||◌, List, [], ◌∷◌, Option, none, some, if◌then◌else◌, Numeric,
  all, set, get_elem?, map,
}
use telegram_hls_streamer_v.Base.Decimal.{CodeUnits}
use telegram_hls_streamer_v.Shared.Text.{trim, parse_int, is_empty}
use telegram_hls_streamer_v.Shared.Category.{
  Category, film, film_series, anime_film, MediaType, DbFields, is_single, is_episodic,
}

-- An entry of pendingFiles' metadata; a field that is absent or null is `none`.
pub record Metadata : Type 0 where
  pub title : Option CodeUnits
  pub series_name : Option CodeUnits
  pub season : Option Numeric
  pub episode : Option Numeric
  pub part_number : Option Numeric

-- The keys of the table's columns.
pub data Key : Type 0 where
  title_key : Key
  series_name_key : Key
  season_key : Key
  episode_key : Key
  part_number_key : Key

pub record Column : Type 0 where
  pub key : Key
  pub required : Bool
  pub is_number : Bool

abbrev text_column : Key → Column
text_column k = record { key = k; required = true; is_number = false }

abbrev number_column : Key → Bool → Column
number_column k r = record { key = k; required = r; is_number = true }

-- `cols` of rebuildMetadataTable.
unfoldable pub columns : Category → List Column
columns film = text_column title_key ∷ []
columns anime_film = text_column title_key ∷ []
columns film_series =
    text_column series_name_key ∷ text_column title_key ∷ number_column part_number_key true ∷ []
columns _ =
    text_column series_name_key
    ∷ number_column season_key false
    ∷ number_column episode_key true
    ∷ []

-- `m.title && m.title.trim()` as a test.
abbrev pub has_text : Option CodeUnits → Bool
has_text none = false
has_text (some t) = not (is_empty (trim t))

abbrev pub has_number : Option Numeric → Bool
has_number none = false
has_number (some n) = true

-- One round of the loop of validateMetadata: the row does not make the form invalid.
unfoldable pub is_valid_row : Category → Metadata → Bool
is_valid_row cat m =
    if is_single cat && not (has_text m.title)
    then false
    else if is_film_series cat
        && (not (has_text m.series_name)
            || not (has_text m.title)
            || not (has_number m.part_number))
    then false
    else if is_episodic cat && (not (has_text m.series_name) || not (has_number m.episode))
    then false
    else true
  where
    is_film_series : Category → Bool
    is_film_series film_series = true
    is_film_series _ = false

-- validateMetadata enables the start button; if not, it disables it.
unfoldable pub validate_metadata : Category → List Metadata → Bool
validate_metadata cat [] = false
validate_metadata cat (m ∷ ms) = all (is_valid_row cat) (m ∷ ms)

-- `metadata[key] = val`, by the listener of the table.
unfoldable pub put : Key → CodeUnits → Metadata → Metadata
put title_key v m = record m { title = some v }
put series_name_key v m = record m { series_name = some v }
put season_key v m = record m { season = if is_empty v then none else some (parse_int v) }
put episode_key v m = record m { episode = if is_empty v then none else some (parse_int v) }
put part_number_key v m = record m { part_number = if is_empty v then none else some (parse_int v) }

unfoldable pub input_cell : ℕ → Key → CodeUnits → List Metadata → List Metadata
unfolding put
input_cell idx k v ms = elim (get_elem? ms idx) [ none ↦ ms | some m ↦ set ms idx (put k v m) ]

abbrev with_series : CodeUnits → Metadata → Metadata
with_series t m = record m { series_name = some t }

-- The button "Apply to all" with the text of its field.
unfoldable pub apply_all : CodeUnits → List Metadata → List Metadata
apply_all input ms = if is_empty (trim input) then ms else map (with_series (trim input)) ms

-- `metadata` of the body of the request to finalize; `title || null` and `series_name || ''`.
pub record FinalMetadata : Type 0 where
  pub final_media_type : MediaType
  pub final_title : Option CodeUnits
  pub final_series_name : CodeUnits
  pub final_is_series : Bool
  pub final_season : Option Numeric
  pub final_episode : Option Numeric
  pub final_part : Option Numeric

abbrev some_text : Option CodeUnits → Option CodeUnits
some_text none = none
some_text (some t) = if is_empty t then none else some t

abbrev or_empty : Option CodeUnits → CodeUnits
or_empty none = []
or_empty (some t) = t

unfoldable pub final_metadata : DbFields → Metadata → FinalMetadata
final_metadata db m = record {
  final_media_type = db.media_type;
  final_title = some_text m.title;
  final_series_name = or_empty m.series_name;
  final_is_series = db.is_series;
  final_season = m.season;
  final_episode = m.episode;
  final_part = m.part_number;
}
