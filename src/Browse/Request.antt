-- ===== src/Browse/Request.antt =====
-- static/browse.js: the request for a page of jobs, the search that starts 400 ms after the last key, and
-- the replies, which come in any order.
pub mod Laws
use telegram_hls_streamer_v.Base.{
  ℕ, zero, suc, Bool, true, false, List, [], ◌∷◌, ◌++◌, Option, none, some, if◌then◌else◌,
}
use telegram_hls_streamer_v.Base.Decimal.{CodeUnits, codes, show}
use telegram_hls_streamer_v.Shared.Text.{trim, is_empty, same_text}
use telegram_hls_streamer_v.Browse.Paging.{Page, Listing, load_jobs, next_page, more_reply}

pub data View : Type 0 where
  grid : View
  series_list : View
  seasons : View
  episodes : View

-- BROWSE_CTX; a season that is null is `none`.
pub record Context : Type 0 where
  pub view : View
  pub category : CodeUnits
  pub series_name : CodeUnits
  pub season_number : Option ℕ

-- The names of the parameters of /api/jobs.
pub data Param : Type 0 where
  page_param : Param
  limit_param : Param
  search_param : Param
  category_param : Param
  group_by_param : Param
  series_name_param : Param
  season_number_param : Param

unfoldable pub season_text : Option ℕ → CodeUnits
season_text none = codes "null"
season_text (some n) = show n

unfoldable pub view_params : Context → List (Param × CodeUnits)
view_params ctx = elim ctx.view [
  | grid ↦ []
  | series_list ↦ (group_by_param, codes "series") ∷ []
  | seasons ↦ (group_by_param, codes "season") ∷ (series_name_param, ctx.series_name) ∷ []
  | episodes ↦
      (series_name_param, ctx.series_name)
      ∷ (season_number_param, season_text ctx.season_number)
      ∷ []
]

abbrev pub jobs_per_page : ℕ
jobs_per_page = 20

-- `_buildApiUrl`: the parameters, each set once.
unfoldable pub build_api_url : Context → CodeUnits → ℕ → List (Param × CodeUnits)
build_api_url ctx query page =
    (page_param, show page)
      ∷ (limit_param, show jobs_per_page)
      ∷ (if is_empty query then [] else (search_param, query) ∷ [])
    ++ (if same_text ctx.category (codes "all") then [] else (category_param, ctx.category) ∷ [])
    ++ view_params ctx

-- An open request: by loadJobs, or by the button for the page that is named.
pub data Request : Type 0 where
  first_page : List (Param × CodeUnits) → Request
  more_page : ℕ → List (Param × CodeUnits) → Request

-- `searchQuery`, whether `searchTimeout` runs, the requests that are not answered, the oldest first, and the list.
pub record SearchPage : Type 0 where
  pub query : CodeUnits
  pub timer : Bool
  pub requests : List Request
  pub listing : Listing

unfoldable pub set_search_query : CodeUnits → SearchPage → SearchPage
set_search_query value s = record s { query = trim value; timer = true }

-- `loadJobs` up to the reply: the list is emptied.
unfoldable pub ask_jobs : Context → SearchPage → SearchPage
ask_jobs ctx s = record s {
  requests = s.requests ++ first_page (build_api_url ctx s.query 1) ∷ [];
  listing = record s.listing { all_jobs = [] };
}

unfoldable pub ask_more : Context → SearchPage → SearchPage
ask_more ctx s = record s {
  requests =
      s.requests
      ++ more_page (next_page s.listing) (build_api_url ctx s.query (next_page s.listing)) ∷ [];
}

abbrev pub Server : Type 0
Server = List (Param × CodeUnits) → Option Page

unfoldable pub take_reply : Server → Request → Listing → Listing
take_reply server (first_page url) l = load_jobs l (server url)
take_reply server (more_page n url) l = more_reply l n (server url)

abbrev pub pick : ℕ → List Request → Option (Request × List Request)
pick n [] = none
pick zero (x ∷ xs) = some (x, xs)
pick (suc n) (x ∷ xs) = elim (pick n xs) [ none ↦ none | some r ↦ some (r.0, x ∷ r.1) ]

unfoldable pub deliver_page : Server → Option (Request × List Request) → SearchPage → SearchPage
deliver_page server none s = s
deliver_page server (some (q, rest)) s = record s {
  requests = rest;
  listing = take_reply server q s.listing;
}

pub data PageEvent : Type 0 where
  typed_query : CodeUnits → PageEvent
  query_due : PageEvent
  more_clicked : PageEvent
  page_answered : ℕ → PageEvent

unfoldable pub page_step : Context → Server → SearchPage → PageEvent → SearchPage
page_step ctx server s (typed_query value) = set_search_query value s
page_step ctx server s query_due = if s.timer then ask_jobs ctx (record s { timer = false }) else s
page_step ctx server s more_clicked = ask_more ctx s
page_step ctx server s (page_answered n) = deliver_page server (pick n s.requests) s

unfoldable pub page_run : Context → Server → SearchPage → List PageEvent → SearchPage
page_run ctx server s [] = s
page_run ctx server s (e ∷ es) = page_run ctx server (page_step ctx server s e) es
