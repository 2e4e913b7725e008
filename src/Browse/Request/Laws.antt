-- ===== src/Browse/Request/Laws.antt =====
-- static/browse.js: the list of a search is that of the text that was typed last.
use telegram_hls_streamer_v.Base.{
  zero, suc, Bool, true, false, List, [], ◌∷◌, ◌++◌, Option, none, some, String, ◌≡◌, refl,
}
use telegram_hls_streamer_v.Base.Decimal.{CodeUnits}
use telegram_hls_streamer_v.Browse.Paging.{Page, load_jobs, next_page, more_reply}
use telegram_hls_streamer_v.Browse.Request.{
  Context, Param, build_api_url, Request, first_page, more_page, SearchPage, ask_more, Server,
  take_reply, deliver_page, PageEvent, more_clicked, page_answered, page_step, page_run,
}

-- The server answers in the order of the requests, and the button for more is not used.
abbrev pub AnswersInOrder : PageEvent → Type 0
AnswersInOrder (page_answered zero) = Unit
AnswersInOrder (page_answered (suc n)) = ⊥
AnswersInOrder more_clicked = ⊥
AnswersInOrder _ = Unit

-- The jobs of a reply, or any if the request failed.
abbrev pub Shows : Option Page → List String → Type 0
Shows none jobs = Unit
Shows (some p) jobs = jobs ≡ p.jobs

module _ (ctx : Context) (server : Server) where
  -- The last of the open requests, which are `r` and those of the list, asks for the URL.
  abbrev LastAsks : List Request → Request → List (Param × CodeUnits) → Type 0
  LastAsks [] (first_page u) url = u ≡ url
  LastAsks [] (more_page n u) url = ⊥
  LastAsks (q ∷ qs) r url = LastAsks qs q url

  -- The request with this URL is still to be sent, is the last that is open, or is shown if it succeeded.
  abbrev Awaits : Bool → List Request → List (Param × CodeUnits) → List String → Type 0
  Awaits true rs url jobs = Unit
  Awaits false [] url jobs = Shows (server url) jobs
  Awaits false (r ∷ rs) url jobs = LastAsks rs r url

  abbrev AwaitsQuery : SearchPage → Type 0
  AwaitsQuery s = Awaits s.timer s.requests (build_api_url ctx s.query 1) s.listing.all_jobs

  -- If two searches are answered the other way round, the list is that of the first.
  pub page_run_late :
      (s : SearchPage) (u v : List (Param × CodeUnits)) (p : Page)
      → s.requests ≡ first_page u ∷ first_page v ∷ []
      → server u ≡ some p
      → (page_run ctx server s (page_answered 1 ∷ page_answered 0 ∷ [])).listing.all_jobs ≡ p.jobs
  unfolding page_run page_step deliver_page take_reply
  page_run_late s u v p h found = unfold load_jobs in rw (h, found) refl

  -- If a search is answered after the next one was sent, and that one then fails, the list is still that of the first: what was
  -- typed last has no list, and the page shows jobs of another text as its list.
  pub page_run_failed :
      (s : SearchPage) (u v : List (Param × CodeUnits)) (p : Page)
      → s.requests ≡ first_page u ∷ first_page v ∷ []
      → server u ≡ some p
      → server v ≡ none
      → (page_run ctx server s (page_answered 0 ∷ page_answered 0 ∷ [])).listing.all_jobs ≡ p.jobs
  unfolding page_run page_step deliver_page take_reply
  page_run_failed s u v p h found failed = unfold load_jobs in rw (h, found, failed) refl

  -- If the button for more is used before the reply to a new search has come, it asks for the page that follows the pages of
  -- the list before, and that page is put after the first one of the search.
  pub page_run_more :
      (s : SearchPage) (p q : Page) (u : List (Param × CodeUnits))
      → s.requests ≡ first_page u ∷ []
      → server u ≡ some p
      → server (build_api_url ctx s.query (suc s.listing.jobs_page)) ≡ some q
      → (page_run ctx server s
          (more_clicked ∷ page_answered 0 ∷ page_answered 0 ∷ [])).listing.all_jobs
        ≡ p.jobs ++ q.jobs
  unfolding page_run page_step deliver_page take_reply ask_more next_page load_jobs more_reply
  page_run_more s p q u h a b = rw (h, a, b) refl
