-- ===== src/Upload/Tests/Metadata.antt =====
-- The theorem on the search for metadata in a row, at a concrete input.
use telegram_hls_streamer_v.Base.{◌≡◌, refl, List, [], ◌∷◌, none}
use telegram_hls_streamer_v.Base.Decimal.{codes}
use telegram_hls_streamer_v.Upload.Metadata.{
  MetaItem, ExternalId, MetaRow, nothing_shown, results_found, RowEvent, query_typed,
  search_pressed, reply_arrived, button_pressed, row_run, external_of,
}
use telegram_hls_streamer_v.Upload.Metadata.Laws.{IsSound, row_run-IsSound}

abbrev alien : MetaItem
alien = record {
  provider = codes "tmdb";
  provider_id = codes "348";
  media_kind = codes "movie";
  title = codes "Alien";
  original_title = [];
  year = 1979;
}

abbrev row : MetaRow
row = record {
  row_provider = codes "tmdb";
  query = [];
  shown = nothing_shown;
  results = none;
  external = none;
}

-- Identifiers of TMDB.
abbrev IsTmdb : ExternalId → Type 0
IsTmdb id = id.ext_provider ≡ codes "tmdb"

abbrev presses : List RowEvent
presses =
    query_typed (codes "alien")
    ∷ search_pressed
    ∷ reply_arrived (results_found (alien ∷ []))
    ∷ button_pressed 0
    ∷ []

row_run-IsSound_example : IsSound IsTmdb (row_run row presses)
unfolding external_of
row_run-IsSound_example =
    row_run-IsSound IsTmdb presses row (tt, (tt, ((refl, tt), (tt, tt)))) (tt, tt, tt)
