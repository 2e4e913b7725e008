-- ===== src/Upload/Tests/Again.antt =====
-- The theorem on an upload that is broken off and resumed, at a concrete input.
use telegram_hls_streamer_v.Base.{
  ℕ, ◌≡◌, refl, true, not, ◌&&◌, List, [], ◌∷◌, none, some, arith, has, add, ltb, integer,
  round_percent,
}
use telegram_hls_streamer_v.Upload.Chunks.{
  UploadStatus, bytes_for_received_chunks, missing_chunks, upload_percent,
}
use telegram_hls_streamer_v.Upload.Pool.{
  Plan, PendingUpload, Event, receive, report, take_work, chunk_sent, start_worker, start_workers,
  prepare, start, sent, send_failed, resume, stop, step, run,
}
use telegram_hls_streamer_v.Upload.Session.{File, status_ok, resumed_plan, resume_upload}
use telegram_hls_streamer_v.Upload.Session.Interrupted.{resume_upload-run}

abbrev clip : File
clip = record { name = "a.mkv"; size = 25; is_video = true; external = none }

abbrev clip_plan : Plan
clip_plan = record {
  upload_id = "u0";
  filename = "a.mkv";
  file_size = 25;
  chunk_size = 10;
  total_chunks = 3;
  already_received = [];
}

abbrev left : PendingUpload
left = record {
  pending_id = "u0";
  pending_filename = "a.mkv";
  pending_size = 25;
  pending_chunk_size = 10;
  pending_total = 3;
  next_chunk = 2;
}

abbrev status : UploadStatus
status = record {
  received_indices = some (integer 2 ∷ integer 0 ∷ []);
  received_chunks = some 2;
  status_chunk_size = some 10;
  status_total_chunks = some 3;
}

abbrev broken_off : List Event
broken_off = sent 2 ∷ sent 0 ∷ send_failed 1 ∷ []

resume_upload-run_example :
    let again = resumed_plan clip left status 7 in
    (resume_upload clip (some left) (status_ok status) 7 ≡ (some again, some left))
    × (again.upload_id ≡ "u0")
    × (again.total_chunks ≡ 3)
    × (again.chunk_size ≡ 10)
    × ((j : ℕ)
        → has (prepare again (some left) []).missing j
          ≡ ltb j 3 && not (has (run (start clip_plan none []) broken_off).received j))
unfolding receive report take_work chunk_sent start_worker start_workers prepare start resume stop
    step run add missing_chunks bytes_for_received_chunks upload_percent round_percent
resume_upload-run_example =
    resume_upload-run clip clip_plan [] [] broken_off left status 7 (refl, refl) (omega arith)
      (omega arith) refl (refl, refl, λ fallback j. refl)
