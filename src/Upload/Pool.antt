-- ===== src/Upload/Pool.antt =====
-- static/upload.js, uploadSingleFile: the workers that send the missing chunks (lines 519-558), and
-- cancelUpload (lines 444-458) while they run. The page is single-threaded: a worker runs from one
-- `await` to the next, so an interleaving is a sequence of events, one for each resumption.
-- Log entries and the local resume record are kept as the values that the code writes.
pub mod Accounting
pub mod Invariant
pub mod Cancel
pub mod Exclusive
pub mod Completion
pub mod Progress
use telegram_hls_streamer_v.Base.{
  ℕ, zero, suc, ◌+◌, ◌-◌, ◌*◌, ◌%◌, min, Bool, true, false, ◌||◌, List, [], ◌∷◌, ◌++◌, Option, none,
  some, if◌then◌else◌, ◌==◌, has, add, length, get_elem?, set, take, String,
}
use telegram_hls_streamer_v.Upload.Chunks.{
  chunk_end, bytes_for_received_chunks, missing_chunks, upload_percent,
}

-- `UPLOAD_CONCURRENCY`.
abbrev pub upload_concurrency : ℕ
upload_concurrency = 3

-- What is known when the workers start: the upload slot, and the chunks the server already has.
pub record Plan : Type 0 where
  pub upload_id : String
  pub filename : String
  pub file_size : ℕ
  pub chunk_size : ℕ
  pub total_chunks : ℕ
  pub already_received : List ℕ

-- The record that savePendingUpload writes, without its timestamp.
pub record PendingUpload : Type 0 where
  pub pending_id : String
  pub pending_filename : String
  pub pending_size : ℕ
  pub pending_chunk_size : ℕ
  pub pending_total : ℕ
  pub next_chunk : ℕ

-- A worker before its first turn, waiting for a chunk to be sent, returned, or thrown out.
pub data Worker : Type 0 where
  ready : Worker
  sending : ℕ → Worker
  finished : Worker
  failed : Worker

pub record Pool : Type 0 where
  pub plan : Plan
  pub open plan use *
  pub missing : List ℕ
  pub next_work : ℕ
  pub received : List ℕ
  pub uploaded_bytes : ℕ
  pub uploaded_since_start : ℕ
  pub is_cancelled : Bool
  pub workers : List Worker
  pub pending : Option PendingUpload
  pub shown_percent : ℕ
  pub activity : List ℕ

-- addActivity keeps the eight newest entries; here an entry is the count of chunks that it names.
abbrev pub add_activity : ℕ → List ℕ → List ℕ
add_activity n log = take 8 (n ∷ log)

-- savePendingUpload, with the arguments that the worker gives.
abbrev pub pending_of : Pool → ℕ → PendingUpload
pending_of p count = record {
  pending_id = p.upload_id;
  pending_filename = p.filename;
  pending_size = p.file_size;
  pending_chunk_size = p.chunk_size;
  pending_total = p.total_chunks;
  next_chunk = count;
}

-- `receivedIndices.add(i)` with the two byte counts, under its guard.
unfoldable pub receive : Pool → ℕ → Pool
receive p i = if has p.received i then p else record p {
  received = add p.received i;
  uploaded_bytes = p.uploaded_bytes + (chunk_end p.file_size p.chunk_size i - i * p.chunk_size);
  uploaded_since_start =
      p.uploaded_since_start + (chunk_end p.file_size p.chunk_size i - i * p.chunk_size);
}

-- savePendingUpload, updateUploadProgress and the log entry that follow.
unfoldable pub report : Pool → Pool
report p =
    let count = length p.received in
    record p {
      pending = some (pending_of p count);
      shown_percent = upload_percent p.uploaded_bytes p.file_size;
      activity =
          if count == p.total_chunks || count % 5 == 0
          then add_activity count p.activity
          else p.activity;
    }

-- The head of the worker's loop: return, throw, or take the next missing chunk.
unfoldable pub take_work : Pool → ℕ → Pool
take_work p w = elim (get_elem? p.missing p.next_work) [
  | none ↦ record p { workers = set p.workers w finished }
  | some i ↦
      if p.is_cancelled
      then record p { workers = set p.workers w failed }
      else record p { workers = set p.workers w (sending i); next_work = suc p.next_work }
]

-- The worker resumes after chunk `i` was sent.
unfoldable pub chunk_sent : Pool → ℕ → ℕ → Pool
chunk_sent p w i =
    if p.is_cancelled
    then record p { workers = set p.workers w failed }
    else take_work (report (receive p i)) w

-- Another worker is created, and runs to its first `await`.
unfoldable pub start_worker : Pool → Pool
start_worker p = take_work (record p { workers = p.workers ++ ready ∷ [] }) (length p.workers)

unfoldable pub start_workers : ℕ → Pool → Pool
start_workers zero p = p
start_workers (suc n) p = start_workers n (start_worker p)

-- Lines 519 to 530: before the first worker.
unfoldable pub prepare : Plan → Option PendingUpload → List ℕ → Pool
prepare plan pending log =
    let bytes =
      bytes_for_received_chunks plan.file_size plan.total_chunks plan.chunk_size
        plan.already_received in
    record {
      plan = plan;
      missing = missing_chunks plan.total_chunks plan.already_received;
      next_work = 0;
      received = plan.already_received;
      uploaded_bytes = bytes;
      uploaded_since_start = 0;
      is_cancelled = false;
      workers = [];
      pending = pending;
      shown_percent = upload_percent bytes plan.file_size;
      activity = log;
    }

unfoldable pub start : Plan → Option PendingUpload → List ℕ → Pool
start plan pending log =
    let p = prepare plan pending log in start_workers (min upload_concurrency (length p.missing)) p

-- What resumes the page: the reply that a worker waits for, good or bad, or the Cancel button.
pub data Event : Type 0 where
  sent : ℕ → Event
  send_failed : ℕ → Event
  cancel : Event

unfoldable pub resume : Pool → ℕ → Option Worker → Pool
resume p w (some (sending i)) = chunk_sent p w i
resume p w _ = p

unfoldable pub stop : Pool → ℕ → Option Worker → Pool
stop p w (some (sending i)) = record p { workers = set p.workers w failed }
stop p w _ = p

unfoldable pub step : Pool → Event → Pool
step p (sent w) = resume p w (get_elem? p.workers w)
step p (send_failed w) = stop p w (get_elem? p.workers w)
step p cancel = record p { is_cancelled = true; pending = none }

unfoldable pub run : Pool → List Event → Pool
run p [] = p
run p (e ∷ es) = run (step p e) es
