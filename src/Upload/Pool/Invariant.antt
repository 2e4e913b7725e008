-- ===== src/Upload/Pool/Invariant.antt =====
-- What holds at every moment of the upload, whatever the order of the replies.
mod Steps
use telegram_hls_streamer_v.Base.{
  ℕ, zero, suc, ◌<◌, ◌≡◌, ◌≢◌, refl, ◌∙◌, true, List, [], ◌∷◌, ◌++◌, Option, none, some, arith,
  length, get_elem?, min, if_elim, IsSetList, All,
}
use telegram_hls_streamer_v.Upload.Chunks.{missing_chunks}
use telegram_hls_streamer_v.Upload.Chunks.Coverage.{has-missing_chunks, get_of_has, has_of_get}
use telegram_hls_streamer_v.Upload.Pool.Accounting.{Accounted-append, get_elem?-append_self}
use telegram_hls_streamer_v.Upload.Pool.{
  Plan, PendingUpload, Worker, ready, sending, finished, Pool, receive, report, chunk_sent,
  start_worker, start_workers, prepare, start, upload_concurrency, Event, sent, send_failed, cancel,
  resume, stop, step, run,
}
pub use telegram_hls_streamer_v.Upload.Pool.Invariant.Steps.{Inv}
use telegram_hls_streamer_v.Upload.Pool.Invariant.Steps.{
  fail-Inv, workers-receive, has-receive_self, receive-Inv, has-report, report-Inv, take_work-Inv,
}

chunk_sent-Inv :
    (p : Pool) (w i : ℕ) → get_elem? p.workers w ≡ some (sending i) → Inv p → Inv (chunk_sent p w i)
unfolding chunk_sent
chunk_sent-Inv p w i at v =
    if_elim Inv p.is_cancelled _ _ (λ _. fail-Inv p w (sending i) at v)
      (λ _.
        take_work-Inv (report (receive p i)) w (sending i) (workers-receive p i w ∙ at)
          (λ k e. ground (arith, has-report (receive p i) i, has-receive_self p i)) (λ e. cc)
          (report-Inv (receive p i) (receive-Inv p i (v.in_range w i at) v)))

get_elem?-append_inv :
    (ws : List Worker) (w : ℕ) (a : Worker)
    → ready ≢ a
    → get_elem? (ws ++ ready ∷ []) w ≡ some a
    → get_elem? ws w ≡ some a
get_elem?-append_inv [] zero a ne e = absurd (ne (ground arith))
get_elem?-append_inv [] (suc w) a ne e = absurd cc
get_elem?-append_inv (x ∷ ws) zero a ne e = e
get_elem?-append_inv (x ∷ ws) (suc w) a ne e = get_elem?-append_inv ws w a ne e

start_worker-Inv : (p : Pool) → Inv p → Inv (start_worker p)
unfolding start_worker
start_worker-Inv p v =
    take_work-Inv (record p { workers = p.workers ++ ready ∷ [] }) (length p.workers) ready
      (get_elem?-append_self p.workers ready) (λ k e. absurd cc) (λ e. cc)
      (record {
        is_set = v.is_set;
        bounded = v.bounded;
        counted = v.counted;
        accounted = λ j i lt e. Accounted-append p.received p.workers _ i (v.accounted j i lt e);
        listed = v.listed;
        missing_bounded = v.missing_bounded;
        idle = λ w e. v.idle w (get_elem?-append_inv p.workers w finished (λ k. cc) e);
        in_range =
            λ w i e. v.in_range w i (get_elem?-append_inv p.workers w (sending i) (λ k. cc) e);
      })

start_workers-Inv : (n : ℕ) (p : Pool) → Inv p → Inv (start_workers n p)
unfolding start_workers
start_workers-Inv zero p v = v
start_workers-Inv (suc n) p v = start_workers-Inv n (start_worker p) (start_worker-Inv p v)

prepare-Inv :
    (plan : Plan) (pending : Option PendingUpload) (log : List ℕ)
    → IsSetList plan.already_received
    → All (λ i. i < plan.total_chunks) plan.already_received
    → Inv (prepare plan pending log)
unfolding prepare
prepare-Inv plan pending log h k = record {
  is_set = h;
  bounded = k;
  counted = refl;
  accounted = λ j i lt e. absurd (omega arith);
  listed = λ i lt new.
      get_of_has _ i (has-missing_chunks plan.total_chunks plan.already_received i ∙ ground arith);
  missing_bounded = λ j i e. ground (
    arith,
    has_of_get (missing_chunks plan.total_chunks plan.already_received) j i e,
    has-missing_chunks plan.total_chunks plan.already_received i,
  );
  idle = λ w e. absurd cc;
  in_range = λ w i e. absurd cc;
}

pub start-Inv :
    (plan : Plan) (pending : Option PendingUpload) (log : List ℕ)
    → IsSetList plan.already_received
    → All (λ i. i < plan.total_chunks) plan.already_received
    → Inv (start plan pending log)
unfolding start
start-Inv plan pending log h k =
    start_workers-Inv (min upload_concurrency (length (prepare plan pending log).missing))
      (prepare plan pending log) (prepare-Inv plan pending log h k)

cancel-Inv : (p : Pool) → Inv p → Inv (record p { is_cancelled = true; pending = none })
cancel-Inv p v = record {
  is_set = v.is_set;
  bounded = v.bounded;
  counted = v.counted;
  accounted = v.accounted;
  listed = v.listed;
  missing_bounded = v.missing_bounded;
  idle = v.idle;
  in_range = v.in_range;
}

resume-Inv :
    (p : Pool) (w : ℕ) (o : Option Worker) → get_elem? p.workers w ≡ o → Inv p → Inv (resume p w o)
unfolding resume
resume-Inv p w (some (sending i)) at v = chunk_sent-Inv p w i at v
resume-Inv p w _ at v = v

stop-Inv :
    (p : Pool) (w : ℕ) (o : Option Worker) → get_elem? p.workers w ≡ o → Inv p → Inv (stop p w o)
unfolding stop
stop-Inv p w (some (sending i)) at v = fail-Inv p w (sending i) at v
stop-Inv p w _ at v = v

pub step-Inv : (p : Pool) (e : Event) → Inv p → Inv (step p e)
unfolding step
step-Inv p (sent w) v = resume-Inv p w (get_elem? p.workers w) refl v
step-Inv p (send_failed w) v = stop-Inv p w (get_elem? p.workers w) refl v
step-Inv p cancel v = cancel-Inv p v

pub run-Inv : (p : Pool) (es : List Event) → Inv p → Inv (run p es)
unfolding run
run-Inv p [] v = v
run-Inv p (e ∷ es) v = run-Inv (step p e) es (step-Inv p e v)
