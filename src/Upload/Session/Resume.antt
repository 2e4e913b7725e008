-- ===== src/Upload/Session/Resume.antt =====
-- static/upload.js: what a resumed upload sends, and the banner that offers it.
use telegram_hls_streamer_v.Base.{
  ℕ, ◌+◌, ◌*◌, ◌/◌, ◌≤◌, ◌<◌, ◌≡◌, refl, ◌∙◌, not, ◌&&◌, List, some, arith, if◌then◌else◌, has, ltb,
  or_default, eq_iff, round_percent, round_percent-le,
}
use telegram_hls_streamer_v.Upload.Chunks.{UploadStatus, received_set_from_status}
use telegram_hls_streamer_v.Upload.Chunks.Coverage.{
  has-missing_chunks, has-received_set_from_status, reported,
}
use telegram_hls_streamer_v.Upload.Pool.{PendingUpload, prepare}
use telegram_hls_streamer_v.Upload.Session.{
  File, status_ok, resumed_plan, try_resume, resume_upload,
}

-- If the resume record is for the file and the server knows the upload, then the upload is resumed
-- under the same id and for the same file; the chunks in its queue are exactly those of the file's
-- chunks that the status reply does not report as received, and the record is kept.
pub resume_upload_rest :
    (file : File) (pending : PendingUpload) (s : UploadStatus) (chunk_size : ℕ) (log : List ℕ)
    → pending.pending_filename ≡ file.name
    → pending.pending_size ≡ file.size
    → let plan = resumed_plan file pending s chunk_size in
      (resume_upload file (some pending) (status_ok s) chunk_size ≡ (some plan, some pending))
      × (plan.upload_id ≡ pending.pending_id)
      × (plan.file_size ≡ file.size)
      × ((j : ℕ)
          → has (prepare plan (some pending) log).missing j
            ≡ ltb j plan.total_chunks && not (reported s pending.next_chunk j))
unfolding resume_upload try_resume resumed_plan prepare
resume_upload_rest file pending s chunk_size log same_name same_size =
    (ground (arith, eq_iff pending.pending_filename file.name), refl, refl, λ j. queue j)
  where
    total : ℕ
    total = or_default s.status_total_chunks (or_default (some pending.pending_total) 0)

    queue :
        (j : ℕ)
        → has (prepare (resumed_plan file pending s chunk_size) (some pending) log).missing j
          ≡ ltb j total && not (reported s pending.next_chunk j)
    queue j =
        has-missing_chunks total (received_set_from_status s total pending.next_chunk) j
        ∙ ground (arith, has-received_set_from_status s total pending.next_chunk j)

-- The age of a record, as the banner shows it.
pub data Age : Type 0 where
  just_now : Age
  minutes : ℕ → Age
  hours : ℕ → Age
  days : ℕ → Age

-- `Math.round(a / b)`, computed exactly.
abbrev pub round_div : ℕ → ℕ → ℕ
round_div a b = (2 * a + b) / (2 * b)

-- Lines 433 to 436: `elapsed` is in ms; the later tests override the earlier ones.
unfoldable pub age_shown : ℕ → Age
age_shown elapsed =
    let age = round_div elapsed 1000 in
    if ltb 86400 age
    then days (round_div age 86400)
    else if ltb 3600 age
    then hours (round_div age 3600)
    else if ltb age 60
    then just_now
    else minutes (round_div age 60)

-- Line 437.
unfoldable pub resume_percent : PendingUpload → ℕ
resume_percent pending =
    if ltb 0 pending.pending_total
    then round_percent pending.next_chunk pending.pending_total
    else 0

abbrev pub InUnit : ℕ → Age → Type 0
InUnit age just_now = age < 60
InUnit age (minutes m) = (60 * m ≤ age + 30) × (age < 60 * m + 30) × (1 ≤ m) × (m ≤ 60)
InUnit age (hours h) = (3600 * h ≤ age + 1800) × (age < 3600 * h + 1800) × (1 ≤ h) × (h ≤ 24)
InUnit age (days d) = (86400 * d ≤ age + 43200) × (age < 86400 * d + 43200) × (1 ≤ d)

-- The banner's age is the age in seconds rounded to the nearest unit, and the unit fits: below a
-- minute no number is shown, minutes go from 1 to 60, hours from 1 to 24, days from 1.
pub age_shown-InUnit : (elapsed : ℕ) → InUnit (round_div elapsed 1000) (age_shown elapsed)
unfolding age_shown
age_shown-InUnit elapsed = of_age (round_div elapsed 1000)
  where
    of_age :
        (age : ℕ)
        → InUnit age (
            if ltb 86400 age
            then days (round_div age 86400)
            else if ltb 3600 age
            then hours (round_div age 3600)
            else if ltb age 60
            then just_now
            else minutes (round_div age 60))
    of_age age = ground arith

-- The percentage of the banner is at most 100 where no more chunks are counted than there are.
pub resume_percent-le :
    (pending : PendingUpload)
    → pending.next_chunk ≤ pending.pending_total
    → resume_percent pending ≤ 100
unfolding resume_percent
resume_percent-le pending h =
    ground (arith, round_percent-le pending.next_chunk pending.pending_total)
