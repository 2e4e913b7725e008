-- ===== src/Upload/Pool/Exclusive.antt =====
-- No chunk is with two workers at a time, and none that the server has is sent again.
mod Steps
use telegram_hls_streamer_v.Base.{
  ℕ, zero, suc, ◌+◌, ◌≡◌, refl, ◌∙◌, inl, inr, false, List, [], ◌∷◌, ◌++◌, Option, some, arith, has,
  has-add, length, get_elem?, min, ℕ-cases, Bool-cases, if_elim,
}
use telegram_hls_streamer_v.Upload.Chunks.{missing_chunks}
use telegram_hls_streamer_v.Upload.Chunks.Coverage.{
  has-missing_chunks, has_of_get, missing_chunks-IsIncreasing,
}
use telegram_hls_streamer_v.Upload.Pool.Accounting.{get_elem?-append_self}
use telegram_hls_streamer_v.Upload.Pool.{
  Plan, PendingUpload, Worker, ready, sending, failed, Pool, receive, report, chunk_sent,
  start_worker, start_workers, prepare, start, upload_concurrency, Event, sent, send_failed, cancel,
  resume, stop, step, run,
}
use telegram_hls_streamer_v.Upload.Pool.Exclusive.Steps.{
  get_elem?-injective, Orderly, rest-Orderly, Between, take_work-Orderly,
}

receive-Between :
    (p : Pool) (w i : ℕ)
    → get_elem? p.workers w ≡ some (sending i)
    → Orderly p
    → Between (report (receive p i)) w
unfolding report receive
receive-Between p w i at o = elim (Bool-cases (has p.received i)) [
  | inl old ↦ absurd (cc (o.unsent w i at))
  | inr new ↦ rw new (record {
    increasing = o.increasing;
    taken = λ v k _ e. o.taken v k e;
    behind = λ j k e h. elim (ℕ-cases i k) [
      | inl same ↦
          let (j', lt, f) = o.taken w i at in
          omega (arith, get_elem?-injective 0 p.missing j' j k o.increasing (ground arith) e)
      | inr other ↦ o.behind j k e (ground (arith, has-add p.received i k))
    ];
    unsent = λ v k ne e. elim (ℕ-cases i k) [
      | inl same ↦ absurd (ne (o.alone w v k (ground arith) e))
      | inr other ↦ ground (arith, has-add p.received i k, o.unsent v k e)
    ];
    alone = λ v u k _ _ e f. o.alone v u k e f;
  })
]

workers-receive :
    (p : Pool) (i w : ℕ) → get_elem? (report (receive p i)).workers w ≡ get_elem? p.workers w
unfolding report receive
workers-receive p i w = ground arith

chunk_sent-Orderly :
    (p : Pool) (w i : ℕ)
    → get_elem? p.workers w ≡ some (sending i)
    → Orderly p
    → Orderly (chunk_sent p w i)
unfolding chunk_sent
chunk_sent-Orderly p w i at o =
    if_elim Orderly p.is_cancelled _ _ (λ _. rest-Orderly p w (sending i) failed at (λ k. cc) o)
      (λ _.
        take_work-Orderly (report (receive p i)) w (sending i) (workers-receive p i w ∙ at)
          (receive-Between p w i at o))

get_elem?-append_inv :
    (ws : List Worker) (w i : ℕ)
    → get_elem? (ws ++ ready ∷ []) w ≡ some (sending i)
    → get_elem? ws w ≡ some (sending i)
get_elem?-append_inv [] zero i e = absurd cc
get_elem?-append_inv [] (suc w) i e = absurd cc
get_elem?-append_inv (x ∷ ws) zero i e = e
get_elem?-append_inv (x ∷ ws) (suc w) i e = get_elem?-append_inv ws w i e

start_workers-Orderly : (n : ℕ) (p : Pool) → Orderly p → Orderly (start_workers n p)
unfolding start_workers start_worker
start_workers-Orderly zero p o = o
start_workers-Orderly (suc n) p o = start_workers-Orderly n (start_worker p) (
    take_work-Orderly (record p { workers = p.workers ++ ready ∷ [] }) (length p.workers) ready
      (get_elem?-append_self p.workers ready)
      (record {
        increasing = o.increasing;
        taken = λ v i _ e. o.taken v i (get_elem?-append_inv p.workers v i e);
        behind = o.behind;
        unsent = λ v i _ e. o.unsent v i (get_elem?-append_inv p.workers v i e);
        alone = λ v u i _ _ e f.
            o.alone v u i (get_elem?-append_inv p.workers v i e)
              (get_elem?-append_inv p.workers u i f);
      }))

start-Orderly :
    (plan : Plan) (pending : Option PendingUpload) (log : List ℕ) → Orderly (start plan pending log)
unfolding start prepare
start-Orderly plan pending log =
    start_workers-Orderly
      (min upload_concurrency (length (missing_chunks plan.total_chunks plan.already_received)))
      (prepare plan pending log)
      (record {
        increasing = missing_chunks-IsIncreasing plan.total_chunks plan.already_received;
        taken = λ w i e. absurd cc;
        behind = λ j i e h. absurd (
            ground (
              arith,
              has_of_get (missing_chunks plan.total_chunks plan.already_received) j i e,
              has-missing_chunks plan.total_chunks plan.already_received i,
            ));
        unsent = λ w i e. absurd cc;
        alone = λ w v i e f. absurd cc;
      })

resume-Orderly :
    (p : Pool) (w : ℕ) (s : Option Worker)
    → get_elem? p.workers w ≡ s
    → Orderly p
    → Orderly (resume p w s)
unfolding resume
resume-Orderly p w (some (sending i)) at o = chunk_sent-Orderly p w i at o
resume-Orderly p w _ at o = o

stop-Orderly :
    (p : Pool) (w : ℕ) (s : Option Worker)
    → get_elem? p.workers w ≡ s
    → Orderly p
    → Orderly (stop p w s)
unfolding stop
stop-Orderly p w (some (sending i)) at o = rest-Orderly p w (sending i) failed at (λ k. cc) o
stop-Orderly p w _ at o = o

run-Orderly : (p : Pool) (es : List Event) → Orderly p → Orderly (run p es)
unfolding run step
run-Orderly p [] o = o
run-Orderly p (sent w ∷ es) o = run-Orderly (step p (sent w)) es (resume-Orderly p w _ refl o)
run-Orderly p (send_failed w ∷ es) o =
    run-Orderly (step p (send_failed w)) es (stop-Orderly p w _ refl o)
run-Orderly p (cancel ∷ es) o = run-Orderly (step p cancel) es (record {
  increasing = o.increasing;
  taken = o.taken;
  behind = o.behind;
  unsent = o.unsent;
  alone = o.alone;
})

-- At every moment of an upload, in whatever order replies come and whether or not it is cancelled:
-- a chunk that two workers are sending is not on the server yet, and the two are one worker.
pub run-start_exclusive :
    (plan : Plan) (pending : Option PendingUpload) (log : List ℕ) (es : List Event) (w v i : ℕ)
    → get_elem? (run (start plan pending log) es).workers w ≡ some (sending i)
    → get_elem? (run (start plan pending log) es).workers v ≡ some (sending i)
    → (has (run (start plan pending log) es).received i ≡ false) × (w ≡ v)
run-start_exclusive plan pending log es w v i at_w at_v =
    let o = run-Orderly (start plan pending log) es (start-Orderly plan pending log) in
    (o.unsent w i at_w, o.alone w v i at_w at_v)
