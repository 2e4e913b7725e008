-- ===== src/Watch/Link.antt =====
-- static/watch.js: the search for metadata in the dialog, and the link that it ends with.
pub mod Laws
use telegram_hls_streamer_v.Base.{
  ℕ, suc, ◌+◌, ◌-◌, Bool, true, false, List, [], ◌∷◌, ◌++◌, Option, none, some, if◌then◌else◌, ltb,
}
use telegram_hls_streamer_v.Base.Decimal.{CodeUnits}
use telegram_hls_streamer_v.Shared.Text.{trim, is_empty}
use telegram_hls_streamer_v.Watch.MetaId.{DirectId, parse_direct_meta_id}

-- A result of the search, with what a click on it links.
pub record Found : Type 0 where
  pub provider : CodeUnits
  pub provider_id : CodeUnits
  pub media_kind : CodeUnits

pub data Results : Type 0 where
  nothing_listed : Results
  no_results : Results
  search_failed : Results
  found : List Found → Results

pub data LinkInfo : Type 0 where
  no_info : LinkInfo
  linking : LinkInfo
  is_linked : LinkInfo
  link_failed : CodeUnits → LinkInfo

-- The dialog, and the requests that are open: the searches, and the links.
pub record LinkDialog : Type 0 where
  pub active : Bool
  pub provider : CodeUnits
  pub query : CodeUnits
  pub results : Results
  pub results_shown : Bool
  pub info : LinkInfo
  pub button_disabled : Bool
  pub open_searches : ℕ
  pub links : List Found

-- closeEditModal.
unfoldable pub close_edit_modal : LinkDialog → LinkDialog
close_edit_modal d = record d {
  active = false;
  results = nothing_listed;
  results_shown = false;
  query = [];
  info = no_info;
}

-- linkMetadata up to its reply.
unfoldable pub link_metadata : Found → LinkDialog → LinkDialog
link_metadata f d = record d { info = linking; links = d.links ++ f ∷ [] }

-- The request to search.
unfoldable pub send_search : LinkDialog → LinkDialog
send_search d = record d { button_disabled = true; open_searches = suc d.open_searches }

abbrev found_of : DirectId → Found
found_of i = record { provider = i.provider; provider_id = i.id; media_kind = i.kind }

-- searchExternalMetadata up to a reply.
unfoldable pub search_external_metadata : LinkDialog → LinkDialog
search_external_metadata d =
    if is_empty (trim d.query) then d else elim (parse_direct_meta_id (trim d.query) d.provider) [
      | none ↦ send_search d
      | some i ↦ link_metadata (found_of i) d
    ]

-- The reply to a search: `none` is a request that failed.
unfoldable pub results_of : Option (List Found) → Results
results_of none = search_failed
results_of (some []) = no_results
results_of (some (r ∷ rs)) = found (r ∷ rs)

unfoldable pub search_reply : Option (List Found) → LinkDialog → LinkDialog
search_reply reply d = record d {
  results = results_of reply;
  results_shown = true;
  button_disabled = false;
  open_searches = d.open_searches - 1;
}

-- The reply to a link: a refusal gives its message.
unfoldable pub link_reply : Option CodeUnits → LinkDialog → LinkDialog
link_reply none d = record d { info = is_linked; results_shown = false }
link_reply (some message) d = record d { info = link_failed message }

pub data LinkEvent : Type 0 where
  search_typed : CodeUnits → LinkEvent
  provider_chosen : CodeUnits → LinkEvent
  search_clicked : LinkEvent
  search_entered : LinkEvent
  search_answered : Option (List Found) → LinkEvent
  result_clicked : Found → LinkEvent
  link_answered : Option CodeUnits → LinkEvent
  dialog_closed : LinkEvent

-- A disabled button takes no click; Enter in the input (src/api/frontend_bodies.rs) searches whether or not the button is
-- disabled; only an open search is answered.
unfoldable pub link_step : LinkDialog → LinkEvent → LinkDialog
link_step d (search_typed q) = record d { query = q }
link_step d (provider_chosen p) = record d { provider = p }
link_step d search_clicked = if d.button_disabled then d else search_external_metadata d
link_step d search_entered = search_external_metadata d
link_step d (search_answered reply) = if ltb 0 d.open_searches then search_reply reply d else d
link_step d (result_clicked f) = link_metadata f d
link_step d (link_answered reply) = link_reply reply d
link_step d dialog_closed = close_edit_modal d

unfoldable pub link_run : LinkDialog → List LinkEvent → LinkDialog
link_run d [] = d
link_run d (e ∷ es) = link_run (link_step d e) es
