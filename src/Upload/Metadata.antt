-- ===== src/Upload/Metadata.antt =====
-- static/upload.js: the search for metadata in a row of the table, the result that is chosen, and the link that is sent
-- when the job exists.
pub mod Laws
use telegram_hls_streamer_v.Base.{
  ℕ, List, [], ◌∷◌, ◌++◌, Option, none, some, if◌then◌else◌, map, take, get_elem?, ◌==◌,
}
use telegram_hls_streamer_v.Base.Decimal.{CodeUnits, codes, show}
use telegram_hls_streamer_v.Shared.Text.{trim, is_empty}
use telegram_hls_streamer_v.Shared.Category.{
  Category, film, film_series, tv_series, anime_film, anime_tv, anime_tv_series,
}
use telegram_hls_streamer_v.Upload.Form.{Metadata}

-- A result of the search; an absent text is empty, an absent year 0.
pub record MetaItem : Type 0 where
  pub provider : CodeUnits
  pub provider_id : CodeUnits
  pub media_kind : CodeUnits
  pub title : CodeUnits
  pub original_title : CodeUnits
  pub year : ℕ

-- `external_metadata`.
pub record ExternalId : Type 0 where
  pub ext_provider : CodeUnits
  pub ext_id : CodeUnits
  pub ext_kind : CodeUnits

-- What stands under the input.
pub data Shown : Type 0 where
  nothing_shown : Shown
  searching : Shown
  none_found : Shown
  buttons : List CodeUnits → Shown
  linked_to : CodeUnits → Shown
  search_error : CodeUnits → Shown

-- A row: its inputs, what is shown, `_metadata_results` and `external_metadata`.
pub record MetaRow : Type 0 where
  pub row_provider : CodeUnits
  pub query : CodeUnits
  pub shown : Shown
  pub results : Option (List MetaItem)
  pub external : Option ExternalId

-- defaultMetadataQuery, and the provider that a category starts with.
abbrev text_of : Option CodeUnits → CodeUnits
text_of none = []
text_of (some t) = t

unfoldable pub default_metadata_query : Metadata → CodeUnits
default_metadata_query m =
    if is_empty (text_of m.series_name) then text_of m.title else text_of m.series_name

unfoldable pub default_provider : Category → CodeUnits
default_provider film = codes "tmdb"
default_provider film_series = codes "tmdb"
default_provider tv_series = codes "tmdb"
default_provider anime_film = codes "anilist"
default_provider anime_tv = codes "anilist"
default_provider anime_tv_series = codes "anilist"

-- A row as rebuildMetadataTable makes it, for a file just chosen: its metadata are fresh, and hold no result and no choice.
unfoldable pub rebuilt_row : Category → Metadata → MetaRow
rebuilt_row cat m = record {
  row_provider = default_provider cat;
  query = default_metadata_query m;
  shown = nothing_shown;
  results = none;
  external = none;
}

-- searchUploadMetadata up to its reply: what is asked for.
unfoldable pub search_upload_metadata : MetaRow → MetaRow × Option (CodeUnits × CodeUnits)
search_upload_metadata r =
    if is_empty (trim r.query)
    then (r, none)
    else (record r { shown = searching }, some (r.row_provider, trim r.query))

pub data SearchReply : Type 0 where
  results_found : List MetaItem → SearchReply
  search_refused : CodeUnits → SearchReply

abbrev pub or_else : CodeUnits → CodeUnits → CodeUnits
or_else [] t = t
or_else (c ∷ cs) t = c ∷ cs

unfoldable pub button_label : MetaItem → CodeUnits
button_label item =
    or_else (or_else item.title item.original_title) (codes "Untitled")
    ++ (if item.year == 0 then [] else codes " (" ++ show item.year ++ codes ")")

unfoldable pub listed_items : List MetaItem → MetaRow → MetaRow
listed_items [] r = record r { shown = none_found }
listed_items (i ∷ is) r = record r {
  shown = buttons (map button_label (i ∷ is));
  results = some (i ∷ is);
}

unfoldable pub search_reply : SearchReply → MetaRow → MetaRow
search_reply (results_found items) r = listed_items (take 5 items) r
search_reply (search_refused message) r = record r {
  shown = search_error (or_else message (codes "Search failed"));
}

abbrev pub item_at : Option (List MetaItem) → ℕ → Option MetaItem
item_at none i = none
item_at (some items) i = get_elem? items i

unfoldable pub external_of : MetaItem → ExternalId
external_of item = record {
  ext_provider = item.provider;
  ext_id = item.provider_id;
  ext_kind = item.media_kind;
}

unfoldable pub linked_label : MetaItem → CodeUnits
linked_label item = or_else (or_else item.title item.original_title) item.provider_id

unfoldable pub select_item : Option MetaItem → MetaRow → MetaRow
select_item none r = r
select_item (some item) r = record r {
  external = some (external_of item);
  shown = linked_to (linked_label item);
}

unfoldable pub select_upload_metadata : ℕ → MetaRow → MetaRow
select_upload_metadata i r = select_item (item_at r.results i) r

pub data RowEvent : Type 0 where
  query_typed : CodeUnits → RowEvent
  provider_picked : CodeUnits → RowEvent
  search_pressed : RowEvent
  reply_arrived : SearchReply → RowEvent
  button_pressed : ℕ → RowEvent
  table_rebuilt : Category → Metadata → RowEvent

unfoldable pub row_step : MetaRow → RowEvent → MetaRow
row_step r (query_typed q) = record r { query = q }
row_step r (provider_picked p) = record r { row_provider = p }
row_step r search_pressed = (search_upload_metadata r).0
row_step r (reply_arrived reply) = search_reply reply r
row_step r (button_pressed i) = select_upload_metadata i r
row_step r (table_rebuilt cat m) = rebuilt_row cat m

unfoldable pub row_run : MetaRow → List RowEvent → MetaRow
row_run r [] = r
row_run r (e ∷ es) = row_run (row_step r e) es

-- linkUploadedMetadata, after the reply to finalize: the request, if something was chosen, and whether the log
-- tells of it. A failure is passed over, and the upload goes on to poll the job.
pub data LinkReply : Type 0 where
  link_accepted : LinkReply
  link_not_accepted : LinkReply
  link_request_failed : LinkReply

unfoldable pub link_uploaded_metadata :
    Option ExternalId → LinkReply → Option ExternalId × List CodeUnits
link_uploaded_metadata none reply = (none, [])
link_uploaded_metadata (some id) link_accepted = (some id, codes "External metadata linked" ∷ [])
link_uploaded_metadata (some id) link_not_accepted = (some id, [])
link_uploaded_metadata (some id) link_request_failed = (some id, [])
