-- ===== src/Upload/Session/Interrupted.antt =====
-- static/upload.js: an upload that is broken off, by a closed page or a failure, and taken up again with the record
-- that its workers left in localStorage.
use telegram_hls_streamer_v.Base.{
  ℕ, zero, suc, ◌<◌, ◌≡◌, refl, ap, ◌∙◌, not, ◌&&◌, List, [], ◌∷◌, ◌++◌, Option, none, some, arith,
  if◌then◌else◌, has, ltb, or_default, get_elem?, set, length, min, ◌⊎◌, inl, inr, if_elim,
}
use telegram_hls_streamer_v.Upload.Chunks.{UploadStatus}
use telegram_hls_streamer_v.Upload.Chunks.Coverage.{reported}
use telegram_hls_streamer_v.Upload.Pool.{
  Plan, PendingUpload, Worker, ready, sending, finished, failed, Pool, pending_of, receive, report,
  take_work, chunk_sent, start_worker, start_workers, prepare, start, Event, sent, send_failed,
  cancel, resume, stop, step, run,
}
use telegram_hls_streamer_v.Upload.Pool.Completion.{start-run-Staffed}
use telegram_hls_streamer_v.Upload.Session.{File, status_ok, resumed_plan, resume_upload}
use telegram_hls_streamer_v.Upload.Session.Resume.{resume_upload_rest}

-- The record of the pool is none, or it tells of the pool as it is.
abbrev Keeps : Pool → Type 0
Keeps p = (p.pending ≡ none) ⊎ (p.pending ≡ some (pending_of p (length p.received)))

take_work-Keeps : (p : Pool) (w : ℕ) → Keeps p → Keeps (take_work p w)
unfolding take_work
take_work-Keeps p w h = go (get_elem? p.missing p.next_work)
  where
    go :
        (o : Option ℕ)
        → Keeps (elim o [
          | none ↦ record p { workers = set p.workers w finished }
          | some i ↦
              if p.is_cancelled
              then record p { workers = set p.workers w failed }
              else record p { workers = set p.workers w (sending i); next_work = suc p.next_work }
        ])
    go none = h
    go (some i) = if_elim (λ (q : Pool). Keeps q) p.is_cancelled _ _ (λ t. h) (λ f. h)

report-Keeps : (p : Pool) → Keeps (report p)
unfolding report
report-Keeps p = inr refl

chunk_sent-Keeps : (p : Pool) (w i : ℕ) → Keeps p → Keeps (chunk_sent p w i)
unfolding chunk_sent
chunk_sent-Keeps p w i h =
    if_elim (λ (q : Pool). Keeps q) p.is_cancelled _ _ (λ t. h)
      (λ f. take_work-Keeps (report (receive p i)) w (report-Keeps (receive p i)))

start_workers-Keeps : (n : ℕ) (p : Pool) → Keeps p → Keeps (start_workers n p)
unfolding start_workers start_worker
start_workers-Keeps zero p h = h
start_workers-Keeps (suc n) p h =
    start_workers-Keeps n (start_worker p)
      (take_work-Keeps (record p { workers = p.workers ++ ready ∷ [] }) (length p.workers) h)

resume-Keeps : (p : Pool) (w : ℕ) (o : Option Worker) → Keeps p → Keeps (resume p w o)
unfolding resume
resume-Keeps p w none h = h
resume-Keeps p w (some ready) h = h
resume-Keeps p w (some (sending i)) h = chunk_sent-Keeps p w i h
resume-Keeps p w (some finished) h = h
resume-Keeps p w (some failed) h = h

stop-Keeps : (p : Pool) (w : ℕ) (o : Option Worker) → Keeps p → Keeps (stop p w o)
unfolding stop
stop-Keeps p w none h = h
stop-Keeps p w (some ready) h = h
stop-Keeps p w (some (sending i)) h = h
stop-Keeps p w (some finished) h = h
stop-Keeps p w (some failed) h = h

step-Keeps : (p : Pool) (e : Event) → Keeps p → Keeps (step p e)
unfolding step
step-Keeps p (sent w) h = resume-Keeps p w (get_elem? p.workers w) h
step-Keeps p (send_failed w) h = stop-Keeps p w (get_elem? p.workers w) h
step-Keeps p cancel h = inl refl

run-Keeps : (es : List Event) (p : Pool) → Keeps p → Keeps (run p es)
unfolding run
run-Keeps [] p h = h
run-Keeps (e ∷ es) p h = run-Keeps es (step p e) (step-Keeps p e h)

start-Keeps : (plan : Plan) (log : List ℕ) → Keeps (start plan none log)
unfolding start prepare
start-Keeps plan log =
    start_workers-Keeps (min 3 (length (prepare plan none log).missing)) (prepare plan none log)
      (inl refl)

-- The record that is left, if there is one.
left-record :
    (plan : Plan) (log : List ℕ) (es : List Event) (q : PendingUpload)
    → (run (start plan none log) es).pending ≡ some q
    → q ≡ pending_of (run (start plan none log) es) (length (run (start plan none log) es).received)
left-record plan log es q h = go (run-Keeps es (start plan none log) (start-Keeps plan log))
  where
    go :
        Keeps (run (start plan none log) es)
        → q
          ≡ pending_of
              (run (start plan none log) es)
              (length (run (start plan none log) es).received)
    go (inl e) = absurd cc
    go (inr e) = cc

-- What a plan says of the file that it uploads.
abbrev pub IsPlanOf : File → Plan → Type 0
IsPlanOf file plan = (plan.filename ≡ file.name) × (plan.file_size ≡ file.size)

-- The server's reply tells the slot, and lists the chunks of which the page had an answer.
abbrev pub KnowsOf : UploadStatus → Plan → List ℕ → Type 0
KnowsOf s plan received =
    (s.status_total_chunks ≡ some plan.total_chunks)
    × (s.status_chunk_size ≡ some plan.chunk_size)
    × ((fallback j : ℕ) → reported s fallback j ≡ has received j)

or_default_pos : (n d : ℕ) → 0 < n → or_default (some n) d ≡ n
or_default_pos zero d h = absurd (omega arith)
or_default_pos (suc n) d h = refl

-- A new upload of a file is broken off after any events, and its workers left a record. If the server then reports the chunks that
-- it had answered for, choosing the file again resumes the same slot with the same chunks, and the queue is
-- just the chunks without an answer: none is sent twice and none is left out.
pub resume_upload-run :
    (file : File) (plan : Plan) (log log' : List ℕ) (es : List Event) (q : PendingUpload)
    (s : UploadStatus) (chunk_size : ℕ)
    → IsPlanOf file plan
    → 0 < plan.total_chunks
    → 0 < plan.chunk_size
    → (run (start plan none log) es).pending ≡ some q
    → KnowsOf s plan (run (start plan none log) es).received
    → let again = resumed_plan file q s chunk_size in
      (resume_upload file (some q) (status_ok s) chunk_size ≡ (some again, some q))
      × (again.upload_id ≡ plan.upload_id)
      × (again.total_chunks ≡ plan.total_chunks)
      × (again.chunk_size ≡ plan.chunk_size)
      × ((j : ℕ)
          → has (prepare again (some q) log').missing j
            ≡ ltb j plan.total_chunks && not (has (run (start plan none log) es).received j))
unfolding resumed_plan
resume_upload-run file plan log log' es q s chunk_size (same_name, same_size) t c h (st, sc, sr) =
    let rest = resume_upload_rest file q s chunk_size log' named sized in
    (
      rest.0,
      identified,
      total (or_default (some q.pending_total) 0),
      chunks (or_default (some q.pending_chunk_size) chunk_size),
      λ j.
          rest.3 j
          ∙ ap (λ n. ltb j n && not (reported s q.next_chunk j))
              (total (or_default (some q.pending_total) 0))
          ∙ ap (λ b. ltb j plan.total_chunks && not b) (sr q.next_chunk j),
    )
  where
    p : Pool
    p = run (start plan none log) es

    of_plan : p.plan ≡ plan
    of_plan = (start-run-Staffed plan none log es).0

    record_is : q ≡ pending_of p (length p.received)
    record_is = left-record plan log es q h

    named : q.pending_filename ≡ file.name
    named =
        ap (λ (r : PendingUpload). r.pending_filename) record_is
        ∙ ap (λ (r : Plan). r.filename) of_plan
        ∙ same_name

    sized : q.pending_size ≡ file.size
    sized =
        ap (λ (r : PendingUpload). r.pending_size) record_is
        ∙ ap (λ (r : Plan). r.file_size) of_plan
        ∙ same_size

    identified : q.pending_id ≡ plan.upload_id
    identified =
        ap (λ (r : PendingUpload). r.pending_id) record_is ∙ ap (λ (r : Plan). r.upload_id) of_plan

    total : (d : ℕ) → or_default s.status_total_chunks d ≡ plan.total_chunks
    total d = ap (λ o. or_default o d) st ∙ or_default_pos plan.total_chunks d t

    chunks : (d : ℕ) → or_default s.status_chunk_size d ≡ plan.chunk_size
    chunks d = ap (λ o. or_default o d) sc ∙ or_default_pos plan.chunk_size d c
