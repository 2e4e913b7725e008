-- ===== src/Upload/Form/Laws.antt =====
-- The start button against the table's columns.
use telegram_hls_streamer_v.Base.{
  ◌≡◌, refl, Bool, true, false, List, [], ◌∷◌, Option, none, some, arith, if◌then◌else◌, all, All,
}
use telegram_hls_streamer_v.Base.Decimal.{CodeUnits}
use telegram_hls_streamer_v.Shared.Text.{trim, is_empty}
use telegram_hls_streamer_v.Shared.Category.{
  Category, film, film_series, tv_series, anime_film, anime_tv, anime_tv_series, category_db,
  DbFields, MediaType, film_media, series_media, anime_film_media, anime_tv_media,
}
use telegram_hls_streamer_v.Upload.Form.{
  Metadata, Key, title_key, series_name_key, season_key, episode_key, part_number_key, Column,
  columns, has_text, has_number, is_valid_row, validate_metadata, FinalMetadata, final_metadata,
}

-- The cell of a column is filled in: text that is not blank, or a number.
abbrev pub is_filled : Metadata → Key → Bool
is_filled m title_key = has_text m.title
is_filled m series_name_key = has_text m.series_name
is_filled m season_key = has_number m.season
is_filled m episode_key = has_number m.episode
is_filled m part_number_key = has_number m.part_number

abbrev pub meets : Metadata → Column → Bool
meets m c = if c.required then is_filled m c.key else true

is_valid_row-columns :
    (cat : Category) (m : Metadata) → is_valid_row cat m ≡ all (meets m) (columns cat)
unfolding is_valid_row columns
is_valid_row-columns film m = ground arith
is_valid_row-columns anime_film m = ground arith
is_valid_row-columns film_series m = ground arith
is_valid_row-columns tv_series m = ground arith
is_valid_row-columns anime_tv m = ground arith
is_valid_row-columns anime_tv_series m = ground arith

all_rows :
    (cat : Category) (ms : List Metadata)
    → all (is_valid_row cat) ms ≡ all (λ m. all (meets m) (columns cat)) ms
all_rows cat [] = refl
all_rows cat (m ∷ ms) = ground (arith, is_valid_row-columns cat m, all_rows cat ms)

-- validateMetadata enables the start button exactly if there is a file, and in every row each column that the table
-- marks as required is filled in; otherwise it disables it.
pub validate_metadata-columns :
    (cat : Category) (ms : List Metadata)
    → validate_metadata cat ms
      ≡ elim ms [ [] ↦ false | m ∷ rest ↦ all (λ n. all (meets n) (columns cat)) (m ∷ rest) ]
unfolding validate_metadata
validate_metadata-columns cat [] = refl
validate_metadata-columns cat (m ∷ ms) = all_rows cat (m ∷ ms)

abbrev pub IsStoredAs : MediaType → Bool → FinalMetadata → Type 0
IsStoredAs media series f = (f.final_media_type ≡ media) × (f.final_is_series ≡ series)

abbrev pub IsEpisode : FinalMetadata → Type 0
IsEpisode f = (has_text (some f.final_series_name) ≡ true) × (has_number f.final_episode ≡ true)

-- A request for one of the episodic categories has a series name that is not blank and an episode
-- number; for a film series, a series name and a title that are not blank and a part number; for a
-- single film, a title that is not blank. Films of both kinds are stored as films, a TV series as a series, and anime as anime;
-- as belonging to a series: film series, TV series and anime TV series, and no other.
abbrev pub IsRequestFor : Category → FinalMetadata → Type 0
IsRequestFor film f = IsStoredAs film_media false f × (has_text f.final_title ≡ true)
IsRequestFor anime_film f = IsStoredAs anime_film_media false f × (has_text f.final_title ≡ true)
IsRequestFor film_series f =
    IsStoredAs film_media true f
    × (has_text (some f.final_series_name) ≡ true)
    × (has_text f.final_title ≡ true)
    × (has_number f.final_part ≡ true)
IsRequestFor tv_series f = IsStoredAs series_media true f × IsEpisode f
IsRequestFor anime_tv f = IsStoredAs anime_tv_media false f × IsEpisode f
IsRequestFor anime_tv_series f = IsStoredAs anime_tv_media true f × IsEpisode f

title_of :
    (db : DbFields) (m : Metadata)
    → has_text m.title ≡ true
    → has_text (final_metadata db m).final_title ≡ true
unfolding final_metadata
title_of db m h = go m.title h
  where
    go :
        (t : Option CodeUnits)
        → has_text t ≡ true
        → has_text (elim t [ none ↦ none | some u ↦ if is_empty u then none else some u ]) ≡ true
    go none h = cc
    go (some []) h = absurd (blank h)
      where
        blank : has_text (some []) ≡ true → ⊥
        blank k = unfold trim in cc k
    go (some (c ∷ cs)) h = h

number_of :
    (db : DbFields) (m : Metadata)
    → has_number m.part_number ≡ true
    → has_number (final_metadata db m).final_part ≡ true
unfolding final_metadata
number_of db m h = h

episode_of :
    (db : DbFields) (m : Metadata)
    → has_number m.episode ≡ true
    → has_number (final_metadata db m).final_episode ≡ true
unfolding final_metadata
episode_of db m h = h

series_of :
    (db : DbFields) (m : Metadata)
    → has_text m.series_name ≡ true
    → has_text (some (final_metadata db m).final_series_name) ≡ true
unfolding final_metadata
series_of db m h = ground arith

is_valid_row-IsRequestFor :
    (cat : Category) (m : Metadata)
    → is_valid_row cat m ≡ true
    → IsRequestFor cat (final_metadata (category_db cat) m)
unfolding is_valid_row category_db final_metadata
is_valid_row-IsRequestFor film m h = ((refl, refl), title_of (category_db film) m (ground arith))
is_valid_row-IsRequestFor anime_film m h =
    ((refl, refl), title_of (category_db anime_film) m (ground arith))
is_valid_row-IsRequestFor film_series m h = (
  (refl, refl),
  series_of (category_db film_series) m (ground arith),
  title_of (category_db film_series) m (ground arith),
  number_of (category_db film_series) m (ground arith),
)
is_valid_row-IsRequestFor tv_series m h = (
  (refl, refl),
  (
    series_of (category_db tv_series) m (ground arith),
    episode_of (category_db tv_series) m (ground arith),
  ),
)
is_valid_row-IsRequestFor anime_tv m h = (
  (refl, refl),
  (
    series_of (category_db anime_tv) m (ground arith),
    episode_of (category_db anime_tv) m (ground arith),
  ),
)
is_valid_row-IsRequestFor anime_tv_series m h = (
  (refl, refl),
  (
    series_of (category_db anime_tv_series) m (ground arith),
    episode_of (category_db anime_tv_series) m (ground arith),
  ),
)

All-of_all :
    (cat : Category) (ms : List Metadata)
    → all (is_valid_row cat) ms ≡ true
    → All (λ m. IsRequestFor cat (final_metadata (category_db cat) m)) ms
All-of_all cat [] h = tt
All-of_all cat (m ∷ ms) h =
    (is_valid_row-IsRequestFor cat m (ground arith), All-of_all cat ms (ground arith))

-- Where validateMetadata enables the start button, every request that is made from a row as it then is has what its category
-- requires, whatever category it is, and is stored with the type of the category and as belonging to a series or not.
pub validate_metadata-IsRequestFor :
    (cat : Category) (ms : List Metadata)
    → validate_metadata cat ms ≡ true
    → All (λ m. IsRequestFor cat (final_metadata (category_db cat) m)) ms
unfolding validate_metadata
validate_metadata-IsRequestFor cat [] h = tt
validate_metadata-IsRequestFor cat (m ∷ ms) h = All-of_all cat (m ∷ ms) h
