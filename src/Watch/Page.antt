-- ===== src/Watch/Page.antt =====
-- static/watch.js: the page of a video from its address to its parts, what deletes the video, and the click
-- on a time in a comment.
pub mod Laws
use telegram_hls_streamer_v.Base.{
  ℕ, Bool, true, false, ◌&&◌, [], ◌∷◌, Option, none, some, if◌then◌else◌,
}
use telegram_hls_streamer_v.Base.Decimal.{CodeUnits, codes}
use telegram_hls_streamer_v.Shared.Text.{is_empty, starts_with, same_text}

-- What stands before the first occurrence of a text, or all.
unfoldable pub before_text : CodeUnits → CodeUnits → CodeUnits
before_text sep [] = []
before_text sep (c ∷ cs) =
    let later = before_text sep cs in if starts_with sep (c ∷ cs) then [] else c ∷ later

-- What stands after the first occurrence.
abbrev pub drop_units : CodeUnits → CodeUnits → CodeUnits
drop_units [] s = s
drop_units (p ∷ ps) [] = []
drop_units (p ∷ ps) (c ∷ cs) = drop_units ps cs

unfoldable pub after_text : CodeUnits → CodeUnits → Option CodeUnits
after_text sep [] = none
after_text sep (c ∷ cs) =
    let later = after_text sep cs in
    if starts_with sep (c ∷ cs) then some (drop_units sep (c ∷ cs)) else later

-- `pathname.split('/watch/')[1]`.
unfoldable pub job_id_of_path : CodeUnits → Option CodeUnits
job_id_of_path path = elim (after_text (codes "/watch/") path) [
  | none ↦ none
  | some rest ↦ some (before_text (codes "/watch/") rest)
]

-- The reply to the request for the job; a refusal or a failure gives its message.
pub data JobReply {ℓ} (A : Type ℓ) : Type ℓ where
  job_found : A → JobReply A
  job_failed : CodeUnits → JobReply A

pub data OpenedPage {ℓ} (A : Type ℓ) : Type ℓ where
  no_job_id : OpenedPage A
  could_not_load : CodeUnits → OpenedPage A
  shows_job : A → OpenedPage A

-- The start of the page: the server is asked for the job that the path names.
unfoldable pub open_reply {ℓ} : {A : Type ℓ} → JobReply A → OpenedPage A
open_reply (job_found job) = shows_job job
open_reply (job_failed message) = could_not_load message

unfoldable pub open_page {ℓ} : {A : Type ℓ} → CodeUnits → (CodeUnits → JobReply A) → OpenedPage A
open_page path server = elim (job_id_of_path path) [
  | none ↦ no_job_id
  | some id ↦ if is_empty id then no_job_id else open_reply (server id)
]

-- deleteJob: where the page goes or what it says, by the user's answer and the server's.
pub data AfterDelete : Type 0 where
  stays : AfterDelete
  goes_home : AfterDelete
  alerts : CodeUnits → AfterDelete

unfoldable pub delete_video : Bool → Option CodeUnits → AfterDelete
delete_video false refused = stays
delete_video true none = goes_home
delete_video true (some message) =
    alerts (if is_empty message then codes "Failed to delete" else message)

-- A message to the window, and the time that the video is set to; a time that is no finite number is `none`.
pub record WindowMessage : Type 0 where
  pub origin : CodeUnits
  pub kind : CodeUnits
  pub time : Option ℕ

unfoldable pub on_message : WindowMessage → ℕ → ℕ
on_message m current =
    if same_text m.origin (codes "https://theanimecommunity.com")
      && same_text m.kind (codes "TAC-TIMESTAMP-CLICK")
    then elim m.time [ none ↦ current | some t ↦ t ]
    else current
