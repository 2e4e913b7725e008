-- ===== src/Upload/Tests/Flow.antt =====
-- Runs of the model of a whole upload and of the form, and their theorems at concrete inputs.
use telegram_hls_streamer_v.Base.{
  ℕ, ◌≤◌, ◌≡◌, refl, true, false, not, ◌&&◌, List, [], ◌∷◌, none, some, arith, String, has, add,
  set_of, ltb, All, all, integer, round_percent,
}
use telegram_hls_streamer_v.Base.Decimal.{codes}
use telegram_hls_streamer_v.Shared.Text.{trim}
use telegram_hls_streamer_v.Shared.Category.{tv_series, category_db}
use telegram_hls_streamer_v.Upload.Chunks.{
  UploadStatus, received_set_from_status, valid_indices, indices_from, bytes_for_received_chunks,
  missing_chunks, upload_percent,
}
use telegram_hls_streamer_v.Upload.Chunks.Coverage.{reported}
use telegram_hls_streamer_v.Upload.Pool.{
  Plan, PendingUpload, receive, report, take_work, chunk_sent, start_worker, start_workers, prepare,
  start, sent, resume, stop, step, run,
}
use telegram_hls_streamer_v.Upload.Poll.{
  StatusData, resolved, PollState, poll_init, verdict, poll_step, poll_from, poll_status,
}
use telegram_hls_streamer_v.Upload.Metadata.{ExternalId, link_request_failed}
use telegram_hls_streamer_v.Upload.Poll.Laws.{Settles, is_none, poll_status_outcome}
use telegram_hls_streamer_v.Upload.Session.{
  status_ok, status_failed, init_ok, finalize_ok, finalize_failed, done, failure, Replies, File,
  slot_plan, resumed_plan, try_resume, resume_upload, init_upload, plan_upload, await_workers,
  finalize_upload, await_job, Uploaded, finish_upload, upload_video, upload_single_file,
}
use telegram_hls_streamer_v.Upload.Session.Laws.{IsComplete, upload_single_file_done}
use telegram_hls_streamer_v.Upload.Session.Resume.{
  resume_upload_rest, days, age_shown, resume_percent, resume_percent-le,
}
use telegram_hls_streamer_v.Upload.Session.Batch.{Attempt}
use telegram_hls_streamer_v.Upload.Form.{
  Metadata, columns, is_valid_row, validate_metadata, final_metadata,
}
use telegram_hls_streamer_v.Upload.Form.Laws.{
  meets, IsRequestFor, validate_metadata-columns, validate_metadata-IsRequestFor,
}

-- Opened for the runs below.
upload : Unit {0}
unfolding receive report take_work chunk_sent start_worker start_workers prepare start resume stop
    step run add set_of missing_chunks bytes_for_received_chunks upload_percent round_percent
    slot_plan try_resume resume_upload init_upload plan_upload await_workers finalize_upload
    await_job finish_upload upload_video upload_single_file verdict poll_step poll_from poll_status
    poll_init resumed_plan received_set_from_status valid_indices indices_from
upload = tt

abbrev poster_id : ExternalId
poster_id = record { ext_provider = codes "tmdb"; ext_id = codes "550"; ext_kind = codes "movie" }

abbrev movie : File
movie = record { name = "a.mkv"; size = 25; is_video = true; external = some poster_id }

abbrev reply : String → StatusData
reply s = record {
  status = s;
  description = none;
  error = none;
  queue_position = none;
  queue_depth = none;
  step = none;
  total_steps = none;
  progress = none;
}

abbrev queued_then_complete : List StatusData
queued_then_complete = reply "queued" ∷ reply "processing" ∷ reply "complete" ∷ reply "error" ∷ []

abbrev good_replies : Replies
good_replies = record {
  status_reply = status_failed;
  init_reply = init_ok (record { slot_id = "u1"; slot_chunk_size = 10; slot_total = 3 });
  events = sent 2 ∷ sent 0 ∷ sent 1 ∷ [];
  finalize_reply = finalize_ok "j1";
  link_reply = link_request_failed;
  poll_replies = queued_then_complete;
}

abbrev movie_plan : Plan
movie_plan = record {
  upload_id = "u1";
  filename = "a.mkv";
  file_size = 25;
  chunk_size = 10;
  total_chunks = 3;
  already_received = [];
}

finished_upload : (u : Uploaded) × (upload_single_file movie none 10 good_replies ≡ done u)
unfolding upload
finished_upload = (_, refl)

upload_single_file_done_example :
    (movie.is_video ≡ true)
    × IsComplete movie finished_upload.0.pool
    × (good_replies.finalize_reply ≡ finalize_ok finished_upload.0.job)
    × Settles finished_upload.0.job queued_then_complete (some (resolved finished_upload.0.job))
    × (finished_upload.0.pending_left ≡ none)
    × (finished_upload.0.linking.0 ≡ some poster_id)
unfolding upload
upload_single_file_done_example =
    upload_single_file_done movie none 10 good_replies movie_plan finished_upload.0 refl
      (omega arith) finished_upload.1

poll_status_outcome_example :
    Settles "j1" queued_then_complete (poll_status "j1" queued_then_complete).outcome
    × ((poll_status "j1" queued_then_complete).polling
        ≡ is_none (poll_status "j1" queued_then_complete).outcome)
poll_status_outcome_example = poll_status_outcome "j1" queued_then_complete

abbrev fresh_poll : PollState
fresh_poll = record {
  last_status = "";
  last_description = "";
  shown_label = none;
  shown_step = none;
  shown_progress = none;
  entries = [];
  polling = true;
  outcome = none;
}

abbrev movie_pending : PendingUpload
movie_pending = record {
  pending_id = "u0";
  pending_filename = "a.mkv";
  pending_size = 25;
  pending_chunk_size = 10;
  pending_total = 3;
  next_chunk = 2;
}

abbrev movie_status : UploadStatus
movie_status = record {
  received_indices = some (integer 0 ∷ integer 2 ∷ []);
  received_chunks = some 2;
  status_chunk_size = some 10;
  status_total_chunks = some 3;
}

resume_upload_rest_example :
    let plan = resumed_plan movie movie_pending movie_status 7 in
    (resume_upload movie (some movie_pending) (status_ok movie_status) 7
      ≡ (some plan, some movie_pending))
    × (plan.upload_id ≡ "u0")
    × (plan.file_size ≡ 25)
    × ((j : ℕ)
        → has (prepare plan (some movie_pending) []).missing j
          ≡ ltb j plan.total_chunks && not (reported movie_status 2 j))
resume_upload_rest_example = resume_upload_rest movie movie_pending movie_status 7 [] refl refl

age_shown_days : age_shown 172800000 ≡ days 2
unfolding age_shown
age_shown_days = refl

resume_percent-le_example : resume_percent movie_pending ≤ 100
resume_percent-le_example = resume_percent-le movie_pending (omega arith)

abbrev uploaded : String → Attempt
uploaded j = record { cancelled_before = false; result = done j }

abbrev refused : Attempt
refused = record { cancelled_before = false; result = failure (finalize_failed "no") }

abbrev episode_row : Metadata
episode_row = record {
  title = none;
  series_name = some (codes " Show");
  season = none;
  episode = some (integer 4);
  part_number = none;
}

validate_metadata-columns_example :
    validate_metadata tv_series (episode_row ∷ [])
    ≡ all (λ n. all (meets n) (columns tv_series)) (episode_row ∷ [])
validate_metadata-columns_example = validate_metadata-columns tv_series (episode_row ∷ [])

validate_metadata-IsRequestFor_example :
    All (λ m. IsRequestFor tv_series (final_metadata (category_db tv_series) m)) (episode_row ∷ [])
unfolding validate_metadata is_valid_row trim
validate_metadata-IsRequestFor_example =
    validate_metadata-IsRequestFor tv_series (episode_row ∷ []) refl
