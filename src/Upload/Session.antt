-- ===== src/Upload/Session.antt =====
-- static/upload.js, uploadSingleFile: from a selected file to the server's job. The server's replies
-- and the order of events are inputs; texts that only the user reads are left out.
pub mod Laws
pub mod Resume
pub mod Interrupted
pub mod Batch
use telegram_hls_streamer_v.Base.{
  ℕ, Bool, true, false, not, ◌&&◌, List, [], Option, none, some, if◌then◌else◌, ◌==◌, str_eq,
  String, or_default, all,
}
use telegram_hls_streamer_v.Base.Decimal.{CodeUnits}
use telegram_hls_streamer_v.Upload.Metadata.{ExternalId, LinkReply, link_uploaded_metadata}
use telegram_hls_streamer_v.Upload.Chunks.{UploadStatus, received_set_from_status}
use telegram_hls_streamer_v.Upload.Pool.{
  Plan, PendingUpload, Worker, finished, failed, Pool, Event, start, run,
}
use telegram_hls_streamer_v.Upload.Poll.{StatusData, Outcome, resolved, rejected, poll_status}

-- The reply of /api/upload/status/<id>: its JSON, a refusal, or a failed request.
pub data StatusReply : Type 0 where
  status_ok : UploadStatus → StatusReply
  status_refused : StatusReply
  status_failed : StatusReply

pub record Slot : Type 0 where
  pub slot_id : String
  pub slot_chunk_size : ℕ
  pub slot_total : ℕ

pub data InitReply : Type 0 where
  init_ok : Slot → InitReply
  init_refused : String → InitReply

pub data FinalizeReply : Type 0 where
  finalize_ok : String → FinalizeReply
  finalize_refused : String → FinalizeReply

pub data Failure : Type 0 where
  unsupported : Failure
  init_failed : String → Failure
  workers_failed : Failure
  cancelled : Failure
  finalize_failed : String → Failure
  processing_failed : String → Failure

-- `waiting`: the replies given do not bring the upload to its end.
pub data Result {ℓ} (A : Type ℓ) : Type ℓ where
  done : A → Result A
  failure : Failure → Result A
  waiting : Result A

infixl 5 ◌>>=◌
abbrev pub ◌>>=◌ {ℓ κ} : {A : Type ℓ} {B : Type κ} → Result A → (A → Result B) → Result B
done a >>= f = f a
failure e >>= f = failure e
waiting >>= f = waiting

-- All that comes from outside while one file is uploaded.
pub record Replies : Type 0 where
  pub status_reply : StatusReply
  pub init_reply : InitReply
  pub events : List Event
  pub finalize_reply : FinalizeReply
  pub link_reply : LinkReply
  pub poll_replies : List StatusData

pub record File : Type 0 where
  pub name : String
  pub size : ℕ
  pub is_video : Bool
  pub external : Option ExternalId

-- The plan of a resumed upload (lines 493 to 497); `chunk_size` is the page's CHUNK_SIZE.
unfoldable pub resumed_plan : File → PendingUpload → UploadStatus → ℕ → Plan
resumed_plan file pending s chunk_size =
    let total = or_default s.status_total_chunks (or_default (some pending.pending_total) 0) in
    record {
      upload_id = pending.pending_id;
      filename = file.name;
      file_size = file.size;
      chunk_size =
          or_default s.status_chunk_size (or_default (some pending.pending_chunk_size) chunk_size);
      total_chunks = total;
      already_received = received_set_from_status s total pending.next_chunk;
    }

-- The resume record is for this file.
abbrev pub is_pending_for : File → PendingUpload → Bool
is_pending_for file pending =
    str_eq pending.pending_filename file.name && pending.pending_size == file.size

-- Lines 488 to 501: resume, or clear the record if the server does not know the upload. The second
-- part is the record that is left.
unfoldable pub try_resume :
    File → PendingUpload → StatusReply → ℕ → Option Plan × Option PendingUpload
try_resume file pending (status_ok s) chunk_size =
    (some (resumed_plan file pending s chunk_size), some pending)
try_resume file pending status_refused chunk_size = (none, none)
try_resume file pending status_failed chunk_size = (none, none)

unfoldable pub resume_upload :
    File → Option PendingUpload → StatusReply → ℕ → Option Plan × Option PendingUpload
resume_upload file none reply chunk_size = (none, none)
resume_upload file (some pending) reply chunk_size =
    if is_pending_for file pending
    then try_resume file pending reply chunk_size
    else (none, some pending)

-- Lines 503 to 517: a new upload slot.
unfoldable pub slot_plan : File → Slot → Plan
slot_plan file slot = record {
  upload_id = slot.slot_id;
  filename = file.name;
  file_size = file.size;
  chunk_size = slot.slot_chunk_size;
  total_chunks = slot.slot_total;
  already_received = [];
}

unfoldable pub init_upload : File → InitReply → Result Plan
init_upload file (init_ok slot) = done (slot_plan file slot)
init_upload file (init_refused message) = failure (init_failed message)

unfoldable pub plan_upload : File → Option Plan → InitReply → Result Plan
plan_upload file (some plan) init = done plan
plan_upload file none init = init_upload file init

abbrev pub is_finished : Worker → Bool
is_finished finished = true
is_finished _ = false

abbrev pub is_failed : Worker → Bool
is_failed failed = true
is_failed _ = false

-- Lines 551 to 560: `await Promise.all(workers)`, and the test after it.
unfoldable pub await_workers : Pool → Result Pool
await_workers p =
    if not (all (λ w. not (is_failed w)) p.workers)
    then failure workers_failed
    else if not (all is_finished p.workers)
    then waiting
    else if p.is_cancelled
    then failure cancelled
    else done p

unfoldable pub finalize_upload : FinalizeReply → Result String
finalize_upload (finalize_ok job_id) = done job_id
finalize_upload (finalize_refused message) = failure (finalize_failed message)

unfoldable pub await_job : String → Option Outcome → Result String
await_job job_id none = waiting
await_job job_id (some (resolved j)) = done j
await_job job_id (some (rejected message)) = failure (processing_failed message)

-- What is observed when the call ends: the pool at the time of the request to finalize, the job, the record for
-- resuming in localStorage, and the request to link metadata with what the log tells of it.
pub record Uploaded : Type 0 where
  pub pool : Pool
  pub job : String
  pub pending_left : Option PendingUpload
  pub linking : Option ExternalId × List CodeUnits

-- Lines 560 to 590: the request to finalize, clearPendingUpload, the link, and the job's end.
unfoldable pub finish_upload : File → Replies → Pool → Result Uploaded
finish_upload file r p = do
  job_id ← finalize_upload r.finalize_reply
  job ← await_job job_id (poll_status job_id r.poll_replies).outcome
  done (record {
    pool = p;
    job = job;
    pending_left = none;
    linking = link_uploaded_metadata file.external r.link_reply;
  })

unfoldable pub upload_video : File → Option PendingUpload → ℕ → Replies → Result Uploaded
upload_video file pending chunk_size r = do
  let (resumed, left) = resume_upload file pending r.status_reply chunk_size
  plan ← plan_upload file resumed r.init_reply
  p ← await_workers (run (start plan left []) r.events)
  finish_upload file r p

unfoldable pub upload_single_file : File → Option PendingUpload → ℕ → Replies → Result Uploaded
upload_single_file file pending chunk_size r =
    if file.is_video then upload_video file pending chunk_size r else failure unsupported
