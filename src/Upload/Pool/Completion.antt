-- ===== src/Upload/Pool/Completion.antt =====
-- What `Promise.all` of the workers establishes when it resolves.
mod Unchanged
use telegram_hls_streamer_v.Base.{
  ℕ, zero, suc, ◌+◌, ◌*◌, ◌≤◌, ◌<◌, ◌≡◌, refl, ◌∙◌, inl, inr, true, false, List, [], ◌∷◌, ◌++◌,
  Option, none, some, arith, has, length, get_elem?, min, length-append, round_percent_self,
  All-get, subst, get_elem?_of_lt, lt-length_of_get_elem?, ap, Bool-cases, Option-cases, if_elim,
  IsSetList, All,
}
use telegram_hls_streamer_v.Upload.Chunks.{missing_chunks, upload_percent}
use telegram_hls_streamer_v.Upload.Chunks.Coverage.{missing_chunks_full}
use telegram_hls_streamer_v.Upload.Chunks.Sums.{bytes_for_received_chunks-covered, covered_full}
use telegram_hls_streamer_v.Upload.Pool.Accounting.{
  Accounted, arrived, held, stopped, get_elem?-none,
}
use telegram_hls_streamer_v.Upload.Pool.Invariant.{Inv, start-Inv, run-Inv}
use telegram_hls_streamer_v.Upload.Pool.{
  Plan, PendingUpload, Worker, ready, sending, finished, Pool, receive, report, take_work,
  chunk_sent, start_worker, start_workers, prepare, start, upload_concurrency, Event, sent,
  send_failed, cancel, resume, stop, step, run,
}
use telegram_hls_streamer_v.Upload.Pool.Completion.Unchanged.{take_work-Fixed, run-Fixed, Staffed}

start_workers-Staffed : (n : ℕ) (p : Pool) → Staffed n p (start_workers n p)
unfolding start_workers start_worker
start_workers-Staffed zero p = record { plan = refl; missing = refl; staff = omega arith }
start_workers-Staffed (suc n) p =
    let q : Pool = record p { workers = p.workers ++ ready ∷ [] } in
    let one = take_work-Fixed q (length p.workers) in
    let rest = start_workers-Staffed n (start_worker p) in
    record {
      plan = rest.plan ∙ one.plan;
      missing = rest.missing ∙ one.missing;
      staff = omega (arith, rest.staff, one.staff, length-append p.workers (ready ∷ []));
    }

-- In a state in which every worker has returned, every chunk is on the server.
every_chunk_received :
    (p : Pool)
    → Inv p
    → (0 < length p.missing → 0 < length p.workers)
    → All (λ w. w ≡ finished) p.workers
    → (i : ℕ) → i < p.total_chunks
    → has p.received i ≡ true
every_chunk_received p v staff done i lt = elim (Bool-cases (has p.received i)) [
  | inl h ↦ h
  | inr h ↦
      let (j, e) = v.listed i lt h in
      absurd (lost (v.accounted j i (get_elem?-none p.missing p.next_work j i drained e) e) h)
]
  where
    drained : get_elem? p.missing p.next_work ≡ none
    drained = elim (Option-cases (get_elem? p.missing p.next_work)) [
      | inl e ↦ e
      | inr (k, e) ↦
          let (a, at) =
            get_elem?_of_lt p.workers 0
              (staff (omega (arith, lt-length_of_get_elem? p.missing p.next_work k e))) in
          v.idle 0 (at ∙ ap some (All-get (λ x. x ≡ finished) p.workers 0 a done at))
    ]

    lost : Accounted p.received p.workers i → has p.received i ≡ false → ⊥
    lost (arrived a) h = cc
    lost (held w e) h = cc (All-get (λ x. x ≡ finished) p.workers w _ done e)
    lost (stopped w e) h = cc (All-get (λ x. x ≡ finished) p.workers w _ done e)

-- The percentage on the page is that of the bytes counted.
Shown : Pool → Type 0
Shown p = p.shown_percent ≡ upload_percent p.uploaded_bytes p.file_size

take_work-Shown : (p : Pool) (w : ℕ) → Shown p → Shown (take_work p w)
unfolding take_work Shown
take_work-Shown p w h = ground arith

chunk_sent-Shown : (p : Pool) (w i : ℕ) → Shown p → Shown (chunk_sent p w i)
unfolding chunk_sent Shown
chunk_sent-Shown p w i h =
    if_elim Shown p.is_cancelled _ _ (λ _. h)
      (λ _. take_work-Shown (report (receive p i)) w (reported (receive p i)))
  where
    reported : (q : Pool) → Shown (report q)
    reported q = unfold report in refl

start_workers-Shown : (n : ℕ) (p : Pool) → Shown p → Shown (start_workers n p)
unfolding start_workers start_worker Shown
start_workers-Shown zero p h = h
start_workers-Shown (suc n) p h =
    start_workers-Shown n (start_worker p)
      (take_work-Shown (record p { workers = p.workers ++ ready ∷ [] }) (length p.workers) h)

start-Shown :
    (plan : Plan) (pending : Option PendingUpload) (log : List ℕ) → Shown (start plan pending log)
unfolding start prepare Shown
start-Shown plan pending log = start_workers-Shown _ (prepare plan pending log) refl

resume-Shown : (p : Pool) (w : ℕ) (o : Option Worker) → Shown p → Shown (resume p w o)
unfolding resume
resume-Shown p w (some (sending i)) h = chunk_sent-Shown p w i h
resume-Shown p w _ h = h

stop-Shown : (p : Pool) (w : ℕ) (o : Option Worker) → Shown p → Shown (stop p w o)
unfolding stop Shown
stop-Shown p w (some (sending i)) h = h
stop-Shown p w _ h = h

run-Shown : (p : Pool) (es : List Event) → Shown p → Shown (run p es)
unfolding run step Shown
run-Shown p [] h = h
run-Shown p (sent w ∷ es) h = run-Shown (step p (sent w)) es (resume-Shown p w _ h)
run-Shown p (send_failed w ∷ es) h = run-Shown (step p (send_failed w)) es (stop-Shown p w _ h)
run-Shown p (cancel ∷ es) h = run-Shown (step p cancel) es h

upload_percent_full : (size : ℕ) → upload_percent size size ≡ 100
unfolding upload_percent
upload_percent_full size = ground (arith, round_percent_self size)

-- Everything that the start fixes, after any events.
pub start-run-Staffed :
    (plan : Plan) (pending : Option PendingUpload) (log : List ℕ) (es : List Event)
    → let p = run (start plan pending log) es in
      (p.plan ≡ plan) × (0 < length p.missing → 0 < length p.workers)
unfolding start
start-run-Staffed plan pending log es =
    let p : Pool = prepare plan pending log in
    let n : ℕ = min upload_concurrency (length p.missing) in
    let s = start_workers-Staffed n p in
    let f = run-Fixed (start_workers n p) es in
    (
      f.plan ∙ s.plan ∙ unfold prepare in refl,
      λ h. omega (arith, f.staff, s.staff, ap length f.missing, ap length s.missing),
    )

-- If the chunks cover the file and every worker has returned, in whatever order the replies came, then no chunk of
-- the file is missing on the server, the bytes counted are the whole file, and the page shows 100 percent.
pub run-start_complete :
    (plan : Plan) (pending : Option PendingUpload) (log : List ℕ) (es : List Event)
    → IsSetList plan.already_received
    → All (λ i. i < plan.total_chunks) plan.already_received
    → plan.file_size ≤ plan.total_chunks * plan.chunk_size
    → All (λ w. w ≡ finished) (run (start plan pending log) es).workers
    → (missing_chunks plan.total_chunks (run (start plan pending log) es).received ≡ [])
      × ((run (start plan pending log) es).uploaded_bytes ≡ plan.file_size)
      × ((run (start plan pending log) es).shown_percent ≡ 100)
unfolding Shown
run-start_complete plan pending log es is_set bounded room done =
    (missing_chunks_full plan.total_chunks p.received every, bytes, percent)
  where
    p : Pool
    p = run (start plan pending log) es

    v : Inv p
    v = run-Inv (start plan pending log) es (start-Inv plan pending log is_set bounded)

    facts : (p.plan ≡ plan) × (0 < length p.missing → 0 < length p.workers)
    facts = start-run-Staffed plan pending log es

    all : (i : ℕ) → i < p.total_chunks → has p.received i ≡ true
    all = every_chunk_received p v facts.1 done

    every : (i : ℕ) → i < plan.total_chunks → has p.received i ≡ true
    every = subst (λ (q : Plan). (i : ℕ) → i < q.total_chunks → has p.received i ≡ true) facts.0 all

    bytes' : p.uploaded_bytes ≡ min (p.total_chunks * p.chunk_size) p.file_size
    bytes' =
        v.counted
        ∙ bytes_for_received_chunks-covered p.file_size p.chunk_size p.total_chunks p.received
            v.is_set v.bounded
        ∙ covered_full p.file_size p.chunk_size p.total_chunks p.received all

    bytes : p.uploaded_bytes ≡ plan.file_size
    bytes =
        subst (λ (q : Plan). p.uploaded_bytes ≡ min (q.total_chunks * q.chunk_size) q.file_size)
          facts.0 bytes'
        ∙ omega arith

    percent : p.shown_percent ≡ 100
    percent =
        run-Shown (start plan pending log) es (start-Shown plan pending log)
        ∙ rw (bytes, ap (λ (q : Plan). q.file_size) facts.0) (upload_percent_full plan.file_size)
