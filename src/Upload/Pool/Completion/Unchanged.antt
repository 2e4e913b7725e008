-- ===== src/Upload/Pool/Completion/Unchanged.antt =====
-- static/upload.js: what no step of an upload changes.
use telegram_hls_streamer_v.Base.{
  ℕ, ◌+◌, ◌≡◌, refl, ◌∙◌, inl, inr, List, [], ◌∷◌, Option, some, arith, length, get_elem?, set,
  length-set, Option-cases, if_elim,
}
use telegram_hls_streamer_v.Upload.Pool.{
  Worker, sending, finished, failed, Pool, receive, report, take_work, chunk_sent, Event, sent,
  send_failed, cancel, resume, stop, step, run,
}

-- What no event changes, and the number of workers.
pub record Fixed (p q : Pool) : Type 0 where
  pub plan : q.plan ≡ p.plan
  pub missing : q.missing ≡ p.missing
  pub staff : length q.workers ≡ length p.workers

pub take_work-Fixed : (p : Pool) (w : ℕ) → Fixed p (take_work p w)
unfolding take_work
take_work-Fixed p w = elim (Option-cases (get_elem? p.missing p.next_work)) [
  | inl e ↦
      rw (e, take_work)
        (record { plan = refl; missing = refl; staff = length-set p.workers w finished })
  | inr (i, e) ↦
      rw (e, take_work)
        (if_elim (Fixed p) p.is_cancelled _ _
          (λ _. record { plan = refl; missing = refl; staff = length-set p.workers w failed })
          (λ _. record { plan = refl; missing = refl; staff = length-set p.workers w (sending i) }))
]

pub report-receive-Fixed : (p : Pool) (i : ℕ) → Fixed p (report (receive p i))
unfolding report receive
report-receive-Fixed p i = ground arith

pub Fixed-trans : (p q r : Pool) → Fixed p q → Fixed q r → Fixed p r
Fixed-trans p q r f g = record {
  plan = g.plan ∙ f.plan;
  missing = g.missing ∙ f.missing;
  staff = g.staff ∙ f.staff;
}

pub fail-Fixed : (p : Pool) (w : ℕ) → Fixed p (record p { workers = set p.workers w failed })
fail-Fixed p w = record { plan = refl; missing = refl; staff = length-set p.workers w failed }

pub chunk_sent-Fixed : (p : Pool) (w i : ℕ) → Fixed p (chunk_sent p w i)
unfolding chunk_sent
chunk_sent-Fixed p w i =
    if_elim (Fixed p) p.is_cancelled _ _ (λ _. fail-Fixed p w)
      (λ _. Fixed-trans p (report (receive p i)) _ (report-receive-Fixed p i) (take_work-Fixed _ w))

pub Fixed-refl : (p : Pool) → Fixed p p
Fixed-refl p = record { plan = refl; missing = refl; staff = refl }

pub resume-Fixed : (p : Pool) (w : ℕ) (o : Option Worker) → Fixed p (resume p w o)
unfolding resume
resume-Fixed p w (some (sending i)) = chunk_sent-Fixed p w i
resume-Fixed p w _ = Fixed-refl p

pub stop-Fixed : (p : Pool) (w : ℕ) (o : Option Worker) → Fixed p (stop p w o)
unfolding stop
stop-Fixed p w (some (sending i)) = fail-Fixed p w
stop-Fixed p w _ = Fixed-refl p

pub step-Fixed : (p : Pool) (e : Event) → Fixed p (step p e)
unfolding step
step-Fixed p (sent w) = resume-Fixed p w _
step-Fixed p (send_failed w) = stop-Fixed p w _
step-Fixed p cancel = record { plan = refl; missing = refl; staff = refl }

pub run-Fixed : (p : Pool) (es : List Event) → Fixed p (run p es)
unfolding run
run-Fixed p [] = Fixed-refl p
run-Fixed p (e ∷ es) = Fixed-trans p (step p e) _ (step-Fixed p e) (run-Fixed (step p e) es)

pub record Staffed (n : ℕ) (p q : Pool) : Type 0 where
  pub plan : q.plan ≡ p.plan
  pub missing : q.missing ≡ p.missing
  pub staff : length q.workers ≡ n + length p.workers
