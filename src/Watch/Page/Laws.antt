-- ===== src/Watch/Page/Laws.antt =====
-- static/watch.js and browse.js: the link of a card opens the page of its video.
use telegram_hls_streamer_v.Base.{
  true, [], ◌∷◌, ◌++◌, Option, none, some, if◌then◌else◌, All, All-map, ◌≡◌, ◌≢◌, refl, arith, ap,
  sym, subst, ◌∙◌,
}
use telegram_hls_streamer_v.Base.Decimal.{CodeUnits, codes}
use telegram_hls_streamer_v.Shared.Text.{is_empty}
use telegram_hls_streamer_v.Shared.Slug.{is_word}
use telegram_hls_streamer_v.Browse.Cards.{CardJob, video_href}
use telegram_hls_streamer_v.Browse.Cards.Laws.{IsPlain, escape_attr-IsPlain}
use telegram_hls_streamer_v.Watch.Page.{
  before_text, after_text, job_id_of_path, JobReply, OpenedPage, no_job_id, open_reply, open_page,
}

before_text-no_slash : (sep s : CodeUnits) → All (λ c. c ≢ 47) s → before_text (47 ∷ sep) s ≡ s
unfolding before_text
before_text-no_slash sep [] h = refl
before_text-no_slash sep (c ∷ cs) (h, hs) = ground (arith, before_text-no_slash sep cs hs)

job_id_of_path-watch :
    (id : CodeUnits) → All (λ c. c ≢ 47) id → job_id_of_path (codes "/watch/" ++ id) ≡ some id
unfolding job_id_of_path after_text
job_id_of_path-watch id h = ap some (before_text-no_slash (codes "watch/") id h)

open_page-named :
    {A : Type 0} (id : CodeUnits) (server : CodeUnits → JobReply A)
    → All (λ c. c ≢ 47) id
    → id ≢ []
    → open_page (codes "/watch/" ++ id) server ≡ open_reply (server id)
unfolding open_page
open_page-named [] server h ne = absurd (ne refl)
open_page-named {A = A} (c ∷ cs) server h ne =
    subst (λ o. opened o ≡ open_reply (server (c ∷ cs))) (sym (job_id_of_path-watch (c ∷ cs) h))
      refl
  where
    opened : Option CodeUnits → OpenedPage A
    opened o = elim o [
      | none ↦ no_job_id
      | some id ↦ if is_empty id then no_job_id else open_reply (server id)
    ]

-- The link of a video's card, where the job's id is of ASCII lower case letters and digits, opens the page with what the
-- server answers for this job.
pub open_page-video_href :
    {A : Type 0} (j : CardJob) (server : CodeUnits → JobReply A)
    → All (λ c. is_word c ≡ true) j.job_id
    → j.job_id ≢ []
    → open_page (video_href j) server ≡ open_reply (server j.job_id)
unfolding video_href
open_page-video_href j server h ne =
    ap (λ s. open_page (codes "/watch/" ++ s) server)
      (escape_attr-IsPlain j.job_id
        (All-map (λ c. is_word c ≡ true) IsPlain j.job_id (λ c w. ground arith) h))
    ∙ open_page-named j.job_id server
        (All-map (λ c. is_word c ≡ true) (λ c. c ≢ 47) j.job_id (λ c w. ground arith) h) ne
