-- ===== src/Upload/Poll/Laws.antt =====
-- How polling ends, and what it writes into the log.
use telegram_hls_streamer_v.Base.{
  ◌≤◌, ◌≡◌, refl, ◌∙◌, Bool, true, false, not, ◌||◌, ◌&&◌, List, [], ◌∷◌, Option, none, some, arith,
  if◌then◌else◌, str_eq, String, or_text, length, take, length-take-le, if_elim, eq_iff, ◌≢◌, inl,
  inr, Bool-cases,
}
use telegram_hls_streamer_v.Upload.Poll.{
  StatusData, label_of, Outcome, resolved, rejected, PollState, poll_init, verdict, is_news,
  poll_step, poll_from, poll_status,
}

-- The verdict of the first reply that has one.
abbrev pub first_verdict : String → List StatusData → Option Outcome
first_verdict job_id [] = none
first_verdict job_id (d ∷ ds) = elim (verdict job_id d) [
  | some o ↦ some o
  | none ↦ first_verdict job_id ds
]

-- How polling ends: with the first reply whose status is `complete` or `error`; `none` while there is none.
pub data Settles (job_id : String) : List StatusData → Option Outcome → Type 0 where
  still_open : Settles job_id [] none
  goes_on :
      (d : StatusData) (ds : List StatusData) (o : Option Outcome)
      → d.status ≢ "complete"
      → d.status ≢ "error"
      → Settles job_id ds o
      → Settles job_id (d ∷ ds) o
  completes :
      (d : StatusData) (ds : List StatusData)
      → d.status ≡ "complete"
      → Settles job_id (d ∷ ds) (some (resolved job_id))
  fails :
      (d : StatusData) (ds : List StatusData)
      → d.status ≡ "error"
      → Settles job_id (d ∷ ds) (some (rejected (or_text d.error "Processing failed")))

pub first_verdict-Settles :
    (job_id : String) (ds : List StatusData) → Settles job_id ds (first_verdict job_id ds)
unfolding verdict
first_verdict-Settles job_id [] = still_open
first_verdict-Settles job_id (d ∷ ds) = elim (Bool-cases (str_eq d.status "complete")) [
  | inl c ↦ rw (first_verdict, c) (completes d ds ((eq_iff d.status "complete").0 c))
  | inr c ↦ elim (Bool-cases (str_eq d.status "error")) [
    | inl e ↦ rw (first_verdict, c, e) (fails d ds ((eq_iff d.status "error").0 e))
    | inr e ↦
        rw (first_verdict, c, e)
          (goes_on d ds (first_verdict job_id ds) (grind (arith, eq_iff)) (grind (arith, eq_iff))
            (first_verdict-Settles job_id ds))
  ]
]

abbrev pub or_else : Option Outcome → Option Outcome → Option Outcome
or_else (some o) p = some o
or_else none p = p

abbrev pub is_none : Option Outcome → Bool
is_none none = true
is_none (some o) = false

outcome_step :
    (job_id : String) (p : PollState) (d : StatusData)
    → (poll_step job_id p d).outcome ≡ or_else p.outcome (verdict job_id d)
unfolding poll_step
outcome_step job_id p d = ground arith

outcome_from :
    (job_id : String) (ds : List StatusData) (p : PollState)
    → (poll_from job_id p ds).outcome ≡ or_else p.outcome (first_verdict job_id ds)
unfolding poll_from
outcome_from job_id [] p = ground arith
outcome_from job_id (d ∷ ds) p =
    outcome_from job_id ds (poll_step job_id p d) ∙ ground (arith, outcome_step job_id p d)

polling_step :
    (job_id : String) (p : PollState) (d : StatusData)
    → p.polling ≡ is_none p.outcome
    → (poll_step job_id p d).polling ≡ is_none (poll_step job_id p d).outcome
unfolding poll_step
polling_step job_id p d h = ground arith

polling_from :
    (job_id : String) (ds : List StatusData) (p : PollState)
    → p.polling ≡ is_none p.outcome
    → (poll_from job_id p ds).polling ≡ is_none (poll_from job_id p ds).outcome
unfolding poll_from
polling_from job_id [] p h = h
polling_from job_id (d ∷ ds) p h =
    polling_from job_id ds (poll_step job_id p d) (polling_step job_id p d h)

pub poll_status-first_verdict :
    (job_id : String) (ds : List StatusData)
    → (poll_status job_id ds).outcome ≡ first_verdict job_id ds
unfolding poll_status poll_init
poll_status-first_verdict job_id ds = outcome_from job_id ds poll_init

-- Whatever replies come, the promise is settled by the first that says `complete` (with the job's id)
-- or `error` (with its message), later ones change nothing, and the timer runs exactly until then.
pub poll_status_outcome :
    (job_id : String) (ds : List StatusData)
    → Settles job_id ds (poll_status job_id ds).outcome
      × ((poll_status job_id ds).polling ≡ is_none (poll_status job_id ds).outcome)
unfolding poll_status poll_init
poll_status_outcome job_id ds = (
  rw (outcome_from job_id ds poll_init) (first_verdict-Settles job_id ds),
  polling_from job_id ds poll_init refl,
)

last_step :
    (job_id : String) (p : PollState) (d : StatusData)
    → ((poll_step job_id p d).last_status ≡ d.status)
      × ((poll_step job_id p d).last_description ≡ or_text d.description "")
unfolding poll_step
last_step job_id p d =
    ground
      (arith, eq_iff d.status p.last_status, eq_iff (or_text d.description "") p.last_description)

entries_step :
    (job_id : String) (p : PollState) (d : StatusData)
    → (poll_step job_id p d).entries
      ≡ (if is_news p d then take 8 (label_of d ∷ p.entries) else p.entries)
unfolding poll_step
entries_step job_id p d = ground arith

shown_step_label :
    (job_id : String) (p : PollState) (d : StatusData)
    → (poll_step job_id p d).shown_label ≡ some (label_of d)
unfolding poll_step
shown_step_label job_id p d = ground arith

entries-le :
    (job_id : String) (p : PollState) (d : StatusData)
    → length p.entries ≤ 8
    → length (poll_step job_id p d).entries ≤ 8
entries-le job_id p d h = rw (entries_step job_id p d) (
    if_elim (λ es. length es ≤ 8) (is_news p d) _ _ (λ _. length-take-le 8 (label_of d ∷ p.entries))
      (λ _. h))

is_news_iff :
    (p : PollState) (d : StatusData) (s t : String)
    → p.last_status ≡ s
    → p.last_description ≡ t
    → is_news p d ≡ (not (str_eq d.status s) || not (str_eq (or_text d.description "") t))
is_news_iff p d s t e f = rw (e, f)

-- A reply adds an entry to the log exactly if its status or its description is not that of the reply
-- before; a log of at most eight entries stays so, and the page shows the label of the newest reply.
pub poll_step_log :
    (job_id : String) (p : PollState) (e d : StatusData)
    → length p.entries ≤ 8
    → let before = poll_step job_id p e in
      let after = poll_step job_id before d in
      (length after.entries ≤ 8)
      × (after.shown_label ≡ some (label_of d))
      × (after.entries ≡ (
          if str_eq d.status e.status
            && str_eq (or_text d.description "") (or_text e.description "")
          then before.entries
          else take 8 (label_of d ∷ before.entries)))
poll_step_log job_id p e d h =
    let q : PollState = poll_step job_id p e in
    let (ls, ld) = last_step job_id p e in
    let news = is_news_iff q d e.status (or_text e.description "") ls ld in
    (
      entries-le job_id q d (entries-le job_id p e h),
      shown_step_label job_id q d,
      entries_step job_id q d ∙ ground (arith, news),
    )
