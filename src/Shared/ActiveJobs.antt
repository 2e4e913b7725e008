-- ===== src/Shared/ActiveJobs.antt =====
-- static/shared.js: the pill that counts the active jobs, and the rows of their panel.
pub mod Laws
use telegram_hls_streamer_v.Base.{
  ℕ, ◌+◌, ◌/◌, Bool, true, false, List, [], ◌∷◌, ◌++◌, Option, none, some, if◌then◌else◌, ltb,
  length, map,
}
use telegram_hls_streamer_v.Base.Decimal.{CodeUnits, codes, show}
use telegram_hls_streamer_v.Shared.Text.{is_empty, capitalized}

-- A job of /api/jobs/active: what is missing is empty, and the progress is in thousandths of a percent.
pub record ActiveJob : Type 0 where
  pub job_id : CodeUnits
  pub filename : CodeUnits
  pub status : CodeUnits
  pub description : CodeUnits
  pub progress : ℕ

-- A row of the panel; the list, or the message that there is none.
pub record JobRow : Type 0 where
  pub row_name : CodeUnits
  pub row_status : CodeUnits
  pub row_width : ℕ

pub data JobList : Type 0 where
  no_active_jobs : JobList
  job_rows : List JobRow → JobList

abbrev pub status_label : CodeUnits → CodeUnits
status_label [] = codes "Unknown"
status_label (c ∷ cs) = capitalized (c ∷ cs)

unfoldable pub row_of : ActiveJob → JobRow
row_of j = record {
  row_name = if is_empty j.filename then j.job_id else j.filename;
  row_status = if is_empty j.description then status_label j.status else j.description;
  row_width = (j.progress + 500) / 1000;
}

unfoldable pub update_panel : List ActiveJob → JobList
update_panel [] = no_active_jobs
update_panel (j ∷ js) = job_rows (map row_of (j ∷ js))

-- The pill: its class and its text.
pub record JobsPill : Type 0 where
  pub is_processing : Bool
  pub pill_text : CodeUnits

abbrev pub count_text : ℕ → CodeUnits
count_text n =
    codes "Processing · " ++ show n ++ codes " job" ++ (if ltb 1 n then codes "s" else [])

-- updatePill; the flag says that the page is the home page, whose own function for the pill is there.
unfoldable pub update_pill : Bool → List ActiveJob → JobsPill → JobsPill
update_pill on_home [] p = record {
  is_processing = false;
  pill_text = if on_home then p.pill_text else codes "Idle";
}
update_pill on_home (j ∷ js) p = record {
  is_processing = true;
  pill_text = count_text (length (j ∷ js));
}

-- What pollActiveJobs shows; `none` is a request that failed, which changes nothing.
pub record JobsShown : Type 0 where
  pub pill : JobsPill
  pub list : JobList

unfoldable pub poll_reply : Bool → JobsShown → Option (List ActiveJob) → JobsShown
poll_reply on_home s none = s
poll_reply on_home s (some jobs) = record {
  pill = update_pill on_home jobs s.pill;
  list = update_panel jobs;
}

unfoldable pub polls : Bool → JobsShown → List (Option (List ActiveJob)) → JobsShown
polls on_home s [] = s
polls on_home s (r ∷ rs) = polls on_home (poll_reply on_home s r) rs
