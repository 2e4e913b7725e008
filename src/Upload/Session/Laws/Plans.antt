-- ===== src/Upload/Session/Laws/Plans.antt =====
-- The plan of an upload, new or resumed, is for the file that was chosen.
use telegram_hls_streamer_v.Base.{
  ℕ, ◌<◌, ◌≡◌, refl, subst, Option, none, some, arith, All, IsSetList, or_default,
}
use telegram_hls_streamer_v.Upload.Chunks.{UploadStatus, received_set_from_status}
use telegram_hls_streamer_v.Upload.Chunks.Coverage.{
  received_set_from_status-IsSetList, has-received_set_from_status, All-of_has,
}
use telegram_hls_streamer_v.Upload.Pool.{Plan, PendingUpload}
use telegram_hls_streamer_v.Upload.Session.{
  StatusReply, status_ok, status_refused, status_failed, InitReply, init_ok, init_refused, done,
  File, resumed_plan, try_resume, resume_upload, init_upload, Slot, slot_plan, plan_upload,
}

-- A plan is for this file, and its set of received chunks is sound.
pub record IsFor (file : File) (plan : Plan) : Type 0 where
  pub size : plan.file_size ≡ file.size
  pub is_set : IsSetList plan.already_received
  pub bounded : All (λ i. i < plan.total_chunks) plan.already_received

resumed_plan-IsFor :
    (file : File) (pending : PendingUpload) (s : UploadStatus) (chunk_size : ℕ)
    → IsFor file (resumed_plan file pending s chunk_size)
unfolding resumed_plan
resumed_plan-IsFor file pending s chunk_size =
    let total : ℕ = or_default s.status_total_chunks (or_default (some pending.pending_total) 0) in
    record {
      size = refl;
      is_set = received_set_from_status-IsSetList s total pending.next_chunk;
      bounded =
          All-of_has total (received_set_from_status s total pending.next_chunk)
            λ i h. ground (arith, has-received_set_from_status s total pending.next_chunk i);
    }

pub resume_upload-IsFor :
    (file : File) (pending : Option PendingUpload) (reply : StatusReply) (chunk_size : ℕ)
    (plan : Plan)
    → (resume_upload file pending reply chunk_size).0 ≡ some plan
    → IsFor file plan
unfolding resume_upload try_resume
resume_upload-IsFor file none reply chunk_size plan h = absurd cc
resume_upload-IsFor file (some pending) (status_ok s) chunk_size plan h =
    subst (IsFor file) (ground arith) (resumed_plan-IsFor file pending s chunk_size)
resume_upload-IsFor file (some pending) status_refused chunk_size plan h = absurd (ground arith)
resume_upload-IsFor file (some pending) status_failed chunk_size plan h = absurd (ground arith)

init_upload-IsFor :
    (file : File) (reply : InitReply) (plan : Plan)
    → init_upload file reply ≡ done plan
    → IsFor file plan
unfolding init_upload
init_upload-IsFor file (init_ok slot) plan h = subst (IsFor file) (ground arith) (new_plan slot)
  where
    new_plan : (slot : Slot) → IsFor file (slot_plan file slot)
    new_plan slot = unfold slot_plan in record { size = refl; is_set = tt; bounded = tt }
init_upload-IsFor file (init_refused m) plan h = absurd cc

pub plan_upload-IsFor :
    (file : File) (resumed : Option Plan) (reply : InitReply) (plan : Plan)
    → ((q : Plan) → resumed ≡ some q → IsFor file q)
    → plan_upload file resumed reply ≡ done plan
    → IsFor file plan
unfolding plan_upload
plan_upload-IsFor file (some q) reply plan ok h = ok plan (ground arith)
plan_upload-IsFor file none reply plan ok h = init_upload-IsFor file reply plan h
