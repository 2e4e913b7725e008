-- ===== src/Upload/Tests.antt =====
-- Runs of the model of the upload page's workers and retries, and its theorems at concrete inputs.
mod Flow
mod Names
mod Again
mod Metadata
use telegram_hls_streamer_v.Base.{
  ℕ, ◌≤◌, ◌≡◌, refl, false, ◌&&◌, List, [], ◌∷◌, none, some, arith, has, add, set_of, length, ltb,
  All, integer, negative, not_integer, round_percent,
}
use telegram_hls_streamer_v.Upload.Chunks.{
  UploadStatus, received_set_from_status, valid_indices, indices_from, bytes_for_received_chunks,
  missing_chunks, upload_percent,
}
use telegram_hls_streamer_v.Upload.Chunks.Coverage.{has-received_set_from_status, reported}
use telegram_hls_streamer_v.Upload.Pool.{
  Plan, finished, receive, report, take_work, chunk_sent, start_worker, start_workers, prepare,
  start, Event, sent, cancel, resume, stop, step, run,
}
use telegram_hls_streamer_v.Upload.Pool.Completion.{run-start_complete}
use telegram_hls_streamer_v.Upload.Pool.Exclusive.{run-start_exclusive}
use telegram_hls_streamer_v.Upload.Pool.Progress.{
  good_reply, no_reply, IsGoingOn, run-start_goes_on,
}
use telegram_hls_streamer_v.Upload.Pool.Cancel.{Frozen, run-cancel-Frozen}
use telegram_hls_streamer_v.Upload.Retry.{
  accepted, rate_limited, http_error, network_error, Reply, Round, delivered, gave_up, handle,
  try_chunk, send_from, send_chunk_with_retry, max_retries,
}
use telegram_hls_streamer_v.Upload.Retry.Laws.{
  KeepsSchedule, send_chunk_with_retry-KeepsSchedule, is_delivered, failures_before,
  send_chunk_with_retry_delivers, IsOver, send_chunk_with_retry-IsOver,
}

-- Opened for the runs below.
pools : Unit {0}
unfolding receive report take_work chunk_sent start_worker start_workers prepare start resume stop
    step run add set_of missing_chunks bytes_for_received_chunks upload_percent round_percent
pools = tt

-- A file of 25 bytes in chunks of 10, of which the server has the middle one.
abbrev short_plan : Plan
short_plan = record {
  upload_id = "u1";
  filename = "a.mkv";
  file_size = 25;
  chunk_size = 10;
  total_chunks = 3;
  already_received = 1 ∷ [];
}

-- The second worker's reply comes first.
abbrev both_sent : List Event
both_sent = sent 1 ∷ sent 0 ∷ []

first_bytes : (start short_plan none []).uploaded_bytes ≡ 10
unfolding pools
first_bytes = refl

after_one : (run (start short_plan none []) (sent 1 ∷ [])).uploaded_bytes ≡ 15
unfolding pools
after_one = refl

run-start_complete_example :
    (missing_chunks 3 (run (start short_plan none []) both_sent).received ≡ [])
    × ((run (start short_plan none []) both_sent).uploaded_bytes ≡ 25)
    × ((run (start short_plan none []) both_sent).shown_percent ≡ 100)
unfolding pools
run-start_complete_example =
    run-start_complete short_plan none [] both_sent (refl, tt) (omega arith, tt) (omega arith)
      (refl, (refl, tt))

run-start_exclusive_example :
    (has (run (start short_plan none []) (sent 1 ∷ [])).received 0 ≡ false) × (◌≡◌ {A = ℕ} 0 0)
unfolding pools
run-start_exclusive_example = run-start_exclusive short_plan none [] (sent 1 ∷ []) 0 0 0 refl refl

run-start_goes_on_example :
    (2 ≤ length (missing_chunks 3 (1 ∷ [])))
    × IsGoingOn 2
        (length (missing_chunks 3 (1 ∷ [])))
        (run (start short_plan none []) (sent 1 ∷ sent 0 ∷ [])).workers
unfolding pools
run-start_goes_on_example =
    run-start_goes_on short_plan none [] (sent 1 ∷ sent 0 ∷ [])
      (good_reply _ 1 2 _ refl (good_reply _ 0 0 _ refl (no_reply _)))

run-cancel-Frozen_example :
    Frozen (start short_plan none []) (run (step (start short_plan none []) cancel) both_sent)
run-cancel-Frozen_example = run-cancel-Frozen (start short_plan none []) both_sent

abbrev some_status : UploadStatus
some_status = record {
  received_indices = some (integer 2 ∷ negative 0 ∷ integer 7 ∷ not_integer ∷ integer 2 ∷ []);
  received_chunks = some 2;
  status_chunk_size = some 10;
  status_total_chunks = some 3;
}

odd_indices : received_set_from_status some_status 3 0 ≡ 2 ∷ []
unfolding received_set_from_status valid_indices indices_from set_of add
odd_indices = refl

has-received_set_from_status_example :
    has (received_set_from_status some_status 3 0) 7 ≡ ltb 7 3 && reported some_status 0 7
has-received_set_from_status_example = has-received_set_from_status some_status 3 0 7

-- Rounds of sendChunkWithRetry.
abbrev answers : Reply → Round
answers r = record { cancelled_before = false; reply = r; cancelled_after = false }

abbrev busy_server : List Round
busy_server =
    answers (http_error "500")
    ∷ answers rate_limited
    ∷ answers (network_error "reset")
    ∷ answers accepted
    ∷ []

abbrev dead_server : List Round
dead_server =
    answers (http_error "500")
    ∷ answers (http_error "500")
    ∷ answers (http_error "500")
    ∷ answers (http_error "500")
    ∷ answers (http_error "500")
    ∷ []

busy_waits : send_chunk_with_retry busy_server ≡ delivered (1000 ∷ 60000 ∷ 2000 ∷ [])
unfolding send_chunk_with_retry send_from try_chunk handle
busy_waits = refl

dead_waits : send_chunk_with_retry dead_server ≡ gave_up "500" (1000 ∷ 2000 ∷ 4000 ∷ 8000 ∷ [])
unfolding send_chunk_with_retry send_from try_chunk handle
dead_waits = refl

send_chunk_with_retry-KeepsSchedule_example : KeepsSchedule (send_chunk_with_retry dead_server)
send_chunk_with_retry-KeepsSchedule_example = send_chunk_with_retry-KeepsSchedule dead_server

send_chunk_with_retry_delivers_example :
    is_delivered (send_chunk_with_retry busy_server)
    ≡ elim (failures_before busy_server) [ none ↦ false | some n ↦ ltb n max_retries ]
send_chunk_with_retry_delivers_example = send_chunk_with_retry_delivers busy_server (
  (refl, refl, λ e. cc),
  ((refl, refl, λ e. cc), ((refl, refl, λ e. cc), ((refl, refl, λ e. cc), tt))),
)

send_chunk_with_retry-IsOver_example : IsOver (send_chunk_with_retry dead_server)
send_chunk_with_retry-IsOver_example = send_chunk_with_retry-IsOver dead_server (omega arith)
