-- ===== src/Browse/Edit.antt =====
-- static/browse.js: the dialog that edits a job of the list. Its inputs and its request are those of the page that
-- plays a video (Watch.Edit).
pub mod Laws
use telegram_hls_streamer_v.Base.{
  Bool, true, false, List, [], ◌∷◌, Option, none, some, if◌then◌else◌,
}
use telegram_hls_streamer_v.Base.Decimal.{CodeUnits}
use telegram_hls_streamer_v.Shared.Text.{same_text}
use telegram_hls_streamer_v.Watch.Edit.{
  Job, Form, Groups, update_edit_modal_fields, open_edit_modal, payload_of, apply_payload,
}

-- `allJobs`, and the dialog: whether it is active, the hidden input with the job, the inputs and the groups that
-- are shown.
pub record Library : Type 0 where
  pub all_jobs : List Job
  pub active : Bool
  pub edit_job_id : CodeUnits
  pub form : Form
  pub groups : Groups
  pub save_disabled : Bool

-- `allJobs.find(j => j.job_id === jobId)`.
unfoldable pub find_job : CodeUnits → List Job → Option Job
find_job id [] = none
find_job id (j ∷ js) = let rest = find_job id js in if same_text j.job_id id then some j else rest

unfoldable pub open_job : CodeUnits → Library → Library
open_job id l = elim (find_job id l.all_jobs) [
  | none ↦ l
  | some j ↦ record l {
    edit_job_id = j.job_id;
    form = open_edit_modal j;
    groups = update_edit_modal_fields (open_edit_modal j).category;
    active = true;
  }
]

unfoldable pub close_job : Library → Library
close_job l = record l { active = false }

-- The start of a save, and its reply by whether the server accepts; the inputs do not change between.
unfoldable pub save_job : Library → Library
save_job l = record l { save_disabled = true }

-- The assignments to the job that `find` gives.
unfoldable pub update_job : CodeUnits → Form → List Job → List Job
update_job id form [] = []
update_job id form (j ∷ js) =
    let rest = update_job id form js in
    if same_text j.job_id id then apply_payload form.category (payload_of form) j ∷ js else j ∷ rest

unfoldable pub save_job_reply : Bool → Library → Library
save_job_reply true l = record l {
  all_jobs = update_job l.edit_job_id l.form l.all_jobs;
  active = false;
  save_disabled = false;
}
save_job_reply false l = record l { save_disabled = false }
