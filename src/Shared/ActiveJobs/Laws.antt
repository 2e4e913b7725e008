-- ===== src/Shared/ActiveJobs/Laws.antt =====
-- static/shared.js: the home page's pill keeps counting jobs that are over.
use telegram_hls_streamer_v.Base.{
  Bool, true, false, List, [], ◌∷◌, Option, none, some, length, ◌≡◌, refl, All,
}
use telegram_hls_streamer_v.Shared.ActiveJobs.{
  ActiveJob, no_active_jobs, update_panel, count_text, update_pill, JobsShown, poll_reply, polls,
}

-- A reply without jobs, or a request that failed.
abbrev pub HasNoJobs : Option (List ActiveJob) → Type 0
HasNoJobs none = Unit
HasNoJobs (some jobs) = jobs ≡ []

polls_text :
    (s : JobsShown) (rs : List (Option (List ActiveJob)))
    → All HasNoJobs rs
    → (polls true s rs).pill.pill_text ≡ s.pill.pill_text
unfolding polls poll_reply update_pill
polls_text s [] h = refl
polls_text s (none ∷ rs) (h, hs) = polls_text s rs hs
polls_text s (some [] ∷ rs) (h, hs) = polls_text (poll_reply true s (some [])) rs hs
polls_text s (some (j ∷ js) ∷ rs) (h, hs) = absurd (cc h)

polls_empty :
    (on_home : Bool) (s : JobsShown) (rs : List (Option (List ActiveJob)))
    → All HasNoJobs rs
    → s.list ≡ no_active_jobs
    → s.pill.is_processing ≡ false
    → ((polls on_home s rs).list ≡ no_active_jobs)
      × ((polls on_home s rs).pill.is_processing ≡ false)
unfolding polls poll_reply update_pill update_panel
polls_empty on_home s [] h e k = (e, k)
polls_empty on_home s (none ∷ rs) (h, hs) e k = polls_empty on_home s rs hs e k
polls_empty on_home s (some [] ∷ rs) (h, hs) e k =
    polls_empty on_home (poll_reply on_home s (some [])) rs hs refl refl
polls_empty on_home s (some (j ∷ js) ∷ rs) (h, hs) e k = absurd (cc h)

-- On the home page, once jobs were active and then a reply has none, the panel says that there are none and the pill
-- loses its class, but its text counts the jobs that there were, however many more replies without jobs and failures
-- follow.
pub polls-stale :
    (s : JobsShown) (j : ActiveJob) (js : List ActiveJob) (rs : List (Option (List ActiveJob)))
    → All HasNoJobs rs
    → ((polls true s (some (j ∷ js) ∷ some [] ∷ rs)).list ≡ no_active_jobs)
      × ((polls true s (some (j ∷ js) ∷ some [] ∷ rs)).pill.is_processing ≡ false)
      × ((polls true s (some (j ∷ js) ∷ some [] ∷ rs)).pill.pill_text
          ≡ count_text (length (j ∷ js)))
unfolding polls poll_reply update_pill update_panel
polls-stale s j js rs h =
    let seen = poll_reply true (poll_reply true s (some (j ∷ js))) (some []) in
    let e = polls_empty true seen rs h refl refl in (e.0, e.1, polls_text seen rs h)
