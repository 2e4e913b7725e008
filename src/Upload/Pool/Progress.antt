-- ===== src/Upload/Pool/Progress.antt =====
-- The workers do not get stuck.
mod Busy
use telegram_hls_streamer_v.Base.{
  ℕ, zero, suc, ◌+◌, ◌-◌, ◌≤◌, ◌<◌, ◌≡◌, refl, ◌∙◌, ◌⊎◌, inl, inr, ap, false, List, [], ◌∷◌, ◌++◌,
  Option, some, arith, length, get_elem?, set, min, lt-length_of_get_elem?, has, Bool-cases,
  Option-cases, if_elim, All, All-append,
}
use telegram_hls_streamer_v.Upload.Chunks.{missing_chunks}
use telegram_hls_streamer_v.Upload.Pool.Progress.Busy.{
  IsWorking, busy, All-set, busy-set_finished, busy-set_sending, waits, busy-append,
}
use telegram_hls_streamer_v.Upload.Pool.{
  Plan, PendingUpload, Worker, ready, sending, finished, Pool, receive, report, take_work,
  chunk_sent, start_worker, start_workers, prepare, start, upload_concurrency, Event, sent, resume,
  step, run,
}

record Healthy (n : ℕ) (p : Pool) : Type 0 where
  running : p.is_cancelled ≡ false
  working : All IsWorking p.workers
  -- The chunks not yet taken, and those on the way.
  left : (length p.missing - p.next_work) + busy p.workers ≡ n

take_work-Healthy :
    (n : ℕ) (p : Pool) (w i : ℕ)
    → get_elem? p.workers w ≡ some (sending i)
    → Healthy (suc n) p
    → Healthy n (take_work p w)
unfolding take_work
take_work-Healthy n p w i at h = elim (Option-cases (get_elem? p.missing p.next_work)) [
  | inl e ↦
      rw (e, take_work)
        (record {
          running = h.running;
          working = All-set p.workers w finished tt h.working;
          left = omega (arith, h.left, busy-set_finished p.workers w i at);
        })
  | inr (k, e) ↦
      rw (e, take_work)
        (if_elim (Healthy n) p.is_cancelled _ _ (λ c. absurd (cc h.running))
          (λ _. record {
            running = h.running;
            working = All-set p.workers w (sending k) tt h.working;
            left = omega (
              arith,
              h.left,
              busy-set_sending p.workers w i k at,
              lt-length_of_get_elem? p.missing p.next_work k e,
            );
          }))
]

report-receive-Healthy : (n : ℕ) (p : Pool) (i : ℕ) → Healthy n p → Healthy n (report (receive p i))
unfolding report receive
report-receive-Healthy n p i h = elim (Bool-cases (has p.received i)) [
  | inl e ↦ rw e (record { running = h.running; working = h.working; left = h.left })
  | inr e ↦ rw e (record { running = h.running; working = h.working; left = h.left })
]

workers-receive :
    (p : Pool) (i w : ℕ) → get_elem? (report (receive p i)).workers w ≡ get_elem? p.workers w
unfolding report receive
workers-receive p i w = ground arith

sent-Healthy :
    (n : ℕ) (p : Pool) (w i : ℕ)
    → get_elem? p.workers w ≡ some (sending i)
    → Healthy (suc n) p
    → Healthy n (step p (sent w))
unfolding step resume chunk_sent
sent-Healthy n p w i at h =
    rw (at, resume)
      (if_elim (Healthy n) p.is_cancelled _ _ (λ c. absurd (cc h.running))
        (λ _.
          take_work-Healthy n (report (receive p i)) w i (workers-receive p i w ∙ at)
            (report-receive-Healthy (suc n) p i h)))

-- Good replies, each to a worker that waits for one when it comes; in any order otherwise.
pub data GoodReplies : Pool → List Event → Type 0 where
  no_reply : (p : Pool) → GoodReplies p []
  good_reply :
      (p : Pool) (w i : ℕ) (es : List Event)
      → get_elem? p.workers w ≡ some (sending i)
      → GoodReplies (step p (sent w)) es
      → GoodReplies p (sent w ∷ es)

-- Each of them brings the work one chunk nearer to its end.
GoodReplies-Healthy :
    (n : ℕ) (p : Pool) (es : List Event)
    → Healthy n p
    → GoodReplies p es
    → (m : ℕ) × Healthy m (run p es) × (m + length es ≡ n)
unfolding run
GoodReplies-Healthy n p [] h (no_reply _) = (n, h, omega arith)
GoodReplies-Healthy zero p (e ∷ es) h (good_reply _ w i _ at rest) =
    absurd (omega (arith, h.left, busy-set_finished p.workers w i at))
GoodReplies-Healthy (suc n) p (e ∷ es) h (good_reply _ w i _ at rest) =
    let (m, k, count) =
      GoodReplies-Healthy n (step p (sent w)) es (sent-Healthy n p w i at h) rest in
    (m, k, omega (arith, count))

-- All workers have returned, or one waits for a reply and not all chunks were replied to.
abbrev pub IsGoingOn : ℕ → ℕ → List Worker → Type 0
IsGoingOn count total ws =
    All (λ x. x ≡ finished) ws
    ⊎ (((w : ℕ) × (i : ℕ) × (get_elem? ws w ≡ some (sending i))) × (count < total))

set-append_self :
    (ws : List Worker) (a b : Worker) → set (ws ++ a ∷ []) (length ws) b ≡ ws ++ b ∷ []
set-append_self [] a b = refl
set-append_self (x ∷ ws) a b = ap (λ (t : List Worker). x ∷ t) (set-append_self ws a b)

start_worker-Healthy : (n : ℕ) (p : Pool) → Healthy n p → Healthy n (start_worker p)
unfolding start_worker take_work
start_worker-Healthy n p h = elim (Option-cases (get_elem? p.missing p.next_work)) [
  | inl e ↦
      rw (e, start_worker, take_work, set-append_self p.workers ready finished)
        (record {
          running = h.running;
          working = All-append IsWorking p.workers (finished ∷ []) h.working (tt, tt);
          left = omega (arith, h.left, busy-append p.workers (finished ∷ []));
        })
  | inr (k, e) ↦
      rw (e, start_worker, take_work)
        (if_elim (Healthy n) p.is_cancelled _ _ (λ c. absurd (cc h.running))
          (λ _. rw (set-append_self p.workers ready (sending k)) (record {
            running = h.running;
            working = All-append IsWorking p.workers (sending k ∷ []) h.working (tt, tt);
            left = omega (
              arith,
              h.left,
              busy-append p.workers (sending k ∷ []),
              lt-length_of_get_elem? p.missing p.next_work k e,
            );
          })))
]

start_workers-Healthy : (m n : ℕ) (p : Pool) → Healthy n p → Healthy n (start_workers m p)
unfolding start_workers
start_workers-Healthy zero n p h = h
start_workers-Healthy (suc m) n p h =
    start_workers-Healthy m n (start_worker p) (start_worker-Healthy n p h)

start-Healthy :
    (plan : Plan) (pending : Option PendingUpload) (log : List ℕ)
    → Healthy
        (length (missing_chunks plan.total_chunks plan.already_received))
        (start plan pending log)
unfolding start prepare
start-Healthy plan pending log =
    start_workers-Healthy
      (min upload_concurrency (length (missing_chunks plan.total_chunks plan.already_received)))
      (length (missing_chunks plan.total_chunks plan.already_received)) (prepare plan pending log)
      (record { running = refl; working = tt; left = omega arith })

-- From the start of any upload, whatever chunk each good reply is for and in whichever order they come: there are at most as many as
-- chunks missing, and until every worker has returned one of them waits for a reply and fewer replies than chunks
-- missing have come. So no worker waits for another, no reply is passed over, and the work ends.
pub run-start_goes_on :
    (plan : Plan) (pending : Option PendingUpload) (log : List ℕ) (es : List Event)
    → GoodReplies (start plan pending log) es
    → (length es ≤ length (missing_chunks plan.total_chunks plan.already_received))
      × IsGoingOn
          (length es)
          (length (missing_chunks plan.total_chunks plan.already_received))
          (run (start plan pending log) es).workers
run-start_goes_on plan pending log es good =
    let total = length (missing_chunks plan.total_chunks plan.already_received) in
    let p = start plan pending log in
    let (m, h, count) = GoodReplies-Healthy total p es (start-Healthy plan pending log) good in
    (
      omega (arith, count),
      elim (waits (run p es).workers h.working) [
        | inl done ↦ inl done
        | inr (w, i, at) ↦
            inr (
              (w, i, at),
              omega (arith, count, h.left, busy-set_finished (run p es).workers w i at),
            )
      ],
    )
