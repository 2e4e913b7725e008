-- ===== src/Browse/Edit/Laws.antt =====
-- static/browse.js: a save changes the job of the dialog and no other.
use telegram_hls_streamer_v.Base.{true, false, List, [], ◌∷◌, ◌++◌, ◌≡◌, refl, All, ap, ◌∙◌}
use telegram_hls_streamer_v.Base.Decimal.{CodeUnits}
use telegram_hls_streamer_v.Shared.Text.{same_text}
use telegram_hls_streamer_v.Watch.Edit.{
  Job, Form, apply_payload, payload_of, update_edit_modal_fields, save_edit_modal,
}
use telegram_hls_streamer_v.Watch.Edit.Laws.{ShowsWhatItStores, save_edit_modal-Shows}
use telegram_hls_streamer_v.Browse.Edit.{Library, update_job, save_job, save_job_reply}

-- The jobs before the first one with that id have other ids.
abbrev pub HasOtherId : CodeUnits → Job → Type 0
HasOtherId id j = same_text j.job_id id ≡ false

update_job-split :
    (id : CodeUnits) (form : Form) (before after : List Job) (j : Job)
    → All (HasOtherId id) before
    → same_text j.job_id id ≡ true
    → update_job id form (before ++ j ∷ after)
      ≡ before ++ apply_payload form.category (payload_of form) j ∷ after
unfolding update_job
update_job-split id form [] after j h e = rw e refl
update_job-split id form (b ∷ before) after j (h, hs) e =
    rw (h, update_job-split id form before after j hs e) refl

-- A save that the server accepts puts, in the place of the first job with the dialog's id, the job that the page of
-- the video would make of it, which has what the shown inputs say and nothing where inputs are hidden; all other
-- jobs and their order stay. A save that is refused changes no job.
pub save_job_reply-update :
    (l : Library) (before after : List Job) (j : Job)
    → l.all_jobs ≡ before ++ j ∷ after
    → All (HasOtherId l.edit_job_id) before
    → same_text j.job_id l.edit_job_id ≡ true
    → ((save_job_reply true (save_job l)).all_jobs
        ≡ before ++ save_edit_modal l.form true j ∷ after)
      × ShowsWhatItStores
          (update_edit_modal_fields l.form.category)
          l.form
          (save_edit_modal l.form true j)
      × ((save_job_reply false (save_job l)).all_jobs ≡ l.all_jobs)
unfolding save_job_reply save_job save_edit_modal
save_job_reply-update l before after j e h k = (
  ap (update_job l.edit_job_id l.form) e ∙ update_job-split l.edit_job_id l.form before after j h k,
  save_edit_modal-Shows l.form j,
  refl,
)
