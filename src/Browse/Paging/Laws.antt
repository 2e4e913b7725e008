-- ===== src/Browse/Paging/Laws.antt =====
-- static/browse.js: the list is what the pages hold, one after another.
use telegram_hls_streamer_v.Base.{
  ℕ, zero, suc, ◌+◌, List, [], ◌++◌, Option, none, some, String, ◌≡◌, refl, sym, ◌∙◌, arith,
}
use telegram_hls_streamer_v.Browse.Paging.{
  Page, Listing, load_jobs, next_page, more_reply, load_more_jobs, load_times,
}
use mathlib.Core.List.{append_assoc, append-nil}

-- The jobs of a page; a page that could not be fetched gives none.
abbrev pub jobs_of : Option Page → List String
jobs_of none = []
jobs_of (some p) = p.jobs

-- The jobs of `k` pages from the `n`-th on.
abbrev pub jobs_of_pages : (ℕ → Option Page) → ℕ → ℕ → List String
jobs_of_pages server n zero = []
jobs_of_pages server n (suc k) = jobs_of (server n) ++ jobs_of_pages server (suc n) k

load_times-append :
    (server : ℕ → Page) (k : ℕ) (l : Listing)
    → ((load_times (λ n. some (server n)) k l).all_jobs
        ≡ l.all_jobs ++ jobs_of_pages (λ n. some (server n)) (suc l.jobs_page) k)
      × ((load_times (λ n. some (server n)) k l).jobs_page ≡ l.jobs_page + k)
unfolding load_times load_more_jobs more_reply next_page
load_times-append server zero l = (sym (append-nil l.all_jobs), omega arith)
load_times-append server (suc k) l =
    let rest = load_times-append server k (load_more_jobs (λ n. some (server n)) l) in
    (
      rest.0
          ∙ append_assoc l.all_jobs (server (suc l.jobs_page)).jobs
              (jobs_of_pages (λ n. some (server n)) (suc (suc l.jobs_page)) k),
      omega (arith, rest.1),
    )

-- When the server answers each request before the next one, the list after the first page and k uses of
-- the button holds the jobs of the first k + 1 pages in order, and the page number is k + 1.
pub load_times-load_jobs :
    (server : ℕ → Page) (k : ℕ) (l : Listing)
    → ((load_times (λ n. some (server n)) k (load_jobs l (some (server 1)))).all_jobs
        ≡ jobs_of_pages (λ n. some (server n)) 1 (suc k))
      × ((load_times (λ n. some (server n)) k (load_jobs l (some (server 1)))).jobs_page ≡ suc k)
unfolding load_jobs
load_times-load_jobs server k l =
    let loaded = load_times-append server k (load_jobs l (some (server 1))) in
    (loaded.0, omega (arith, loaded.1))

-- If the button is used again before the reply, both requests are for the same page, and its jobs stand in the list twice.
pub more_reply_twice :
    (l : Listing) (p : Page)
    → ((more_reply (more_reply l (next_page l) (some p)) (next_page l) (some p)).all_jobs
        ≡ l.all_jobs ++ p.jobs ++ p.jobs)
      × ((more_reply (more_reply l (next_page l) (some p)) (next_page l) (some p)).jobs_page
          ≡ suc l.jobs_page)
unfolding more_reply next_page
more_reply_twice l p = (refl, refl)
