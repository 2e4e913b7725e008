-- ===== src/Upload/Pool/Cancel.antt =====
-- After the Cancel button.
use telegram_hls_streamer_v.Base.{
  ℕ, ◌≡◌, refl, true, List, [], ◌∷◌, Option, none, some, arith, if_elim,
}
use telegram_hls_streamer_v.Upload.Pool.{
  Worker, sending, Pool, chunk_sent, Event, sent, send_failed, cancel, resume, stop, step, run,
}

-- Nothing of `p` is added to: no chunk is taken or counted, and no resume record is left.
pub record Frozen (p q : Pool) : Type 0 where
  pub cancelled : q.is_cancelled ≡ true
  pub cleared : q.pending ≡ none
  pub same_received : q.received ≡ p.received
  pub same_bytes : q.uploaded_bytes ≡ p.uploaded_bytes
  pub same_work : q.next_work ≡ p.next_work

chunk_sent-Frozen : (p q : Pool) (w i : ℕ) → Frozen p q → Frozen p (chunk_sent q w i)
unfolding chunk_sent
chunk_sent-Frozen p q w i f =
    if_elim (Frozen p) q.is_cancelled _ _
      (λ _. record {
        cancelled = f.cancelled;
        cleared = f.cleared;
        same_received = f.same_received;
        same_bytes = f.same_bytes;
        same_work = f.same_work;
      })
      (λ n. absurd (cc f.cancelled))

resume-Frozen : (p q : Pool) (w : ℕ) (o : Option Worker) → Frozen p q → Frozen p (resume q w o)
unfolding resume
resume-Frozen p q w (some (sending i)) f = chunk_sent-Frozen p q w i f
resume-Frozen p q w _ f = f

stop-Frozen : (p q : Pool) (w : ℕ) (o : Option Worker) → Frozen p q → Frozen p (stop q w o)
unfolding stop
stop-Frozen p q w (some (sending i)) f = record {
  cancelled = f.cancelled;
  cleared = f.cleared;
  same_received = f.same_received;
  same_bytes = f.same_bytes;
  same_work = f.same_work;
}
stop-Frozen p q w _ f = f

step-Frozen : (p q : Pool) (e : Event) → Frozen p q → Frozen p (step q e)
unfolding step
step-Frozen p q (sent w) f = resume-Frozen p q w _ f
step-Frozen p q (send_failed w) f = stop-Frozen p q w _ f
step-Frozen p q cancel f = record {
  cancelled = refl;
  cleared = refl;
  same_received = f.same_received;
  same_bytes = f.same_bytes;
  same_work = f.same_work;
}

run-Frozen : (p q : Pool) (es : List Event) → Frozen p q → Frozen p (run q es)
unfolding run
run-Frozen p q [] f = f
run-Frozen p q (e ∷ es) f = run-Frozen p (step q e) es (step-Frozen p q e f)

-- Once cancelUpload has run, whatever replies still come, in whatever order: no further chunk is
-- taken, no chunk or byte is counted, and the resume record stays deleted.
pub run-cancel-Frozen : (p : Pool) (es : List Event) → Frozen p (run (step p cancel) es)
unfolding step
run-cancel-Frozen p es = run-Frozen p (step p cancel) es cancelled
  where
    cancelled : Frozen p (step p cancel)
    cancelled = ground arith
