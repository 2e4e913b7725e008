-- ===== src/Browse/Paging.antt =====
-- static/browse.js: the list of a page, which grows page by page.
pub mod Laws
use telegram_hls_streamer_v.Base.{
  ℕ, zero, suc, ◌+◌, Bool, true, not, List, [], ◌++◌, Option, none, some, String, str_eq, filter,
}

-- A reply of /api/jobs; the jobs are known by name here.
pub record Page : Type 0 where
  pub jobs : List String
  pub has_more : Bool

-- `allJobs`, `jobsPage`, `hasMoreJobs`; the button shows while there are more.
pub record Listing : Type 0 where
  pub all_jobs : List String
  pub jobs_page : ℕ
  pub has_more_jobs : Bool

-- loadJobs after its reply; `none` is a request that failed, which leaves the list as it is.
unfoldable pub load_jobs : Listing → Option Page → Listing
load_jobs l none = l
load_jobs l (some p) = record { all_jobs = p.jobs; jobs_page = 1; has_more_jobs = p.has_more }

-- The page that loadMoreJobs asks for, and what its reply does.
unfoldable pub next_page : Listing → ℕ
next_page l = suc l.jobs_page

unfoldable pub more_reply : Listing → ℕ → Option Page → Listing
more_reply l n none = l
more_reply l n (some p) = record {
  all_jobs = l.all_jobs ++ p.jobs;
  jobs_page = n;
  has_more_jobs = p.has_more;
}

-- One use of the button that is answered before the next.
unfoldable pub load_more_jobs : (ℕ → Option Page) → Listing → Listing
load_more_jobs server l = more_reply l (next_page l) (server (next_page l))

unfoldable pub load_times : (ℕ → Option Page) → ℕ → Listing → Listing
load_times server zero l = l
load_times server (suc k) l = load_times server k (load_more_jobs server l)

-- deleteJob, by whether the user confirms and the server accepts.
unfoldable pub delete_job : String → Bool → Bool → Listing → Listing
delete_job id true true l = record l { all_jobs = filter (λ j. not (str_eq j id)) l.all_jobs }
delete_job id _ _ l = l
