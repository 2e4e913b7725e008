-- ===== src/Upload/Notices.antt =====
-- static/upload.js: what the page tells while it uploads: the log, the progress, the banner to resume, the cards at
-- the end, and cancelUpload outside the workers.
pub mod Laws
use telegram_hls_streamer_v.Base.{
  ℕ, suc, ◌+◌, Bool, true, false, List, [], ◌∷◌, ◌++◌, Option, none, some, if◌then◌else◌, ltb, take,
  String, round_percent,
}
use telegram_hls_streamer_v.Base.Decimal.{CodeUnits, codes, show}
use telegram_hls_streamer_v.Shared.Format.{format_bytes}
use telegram_hls_streamer_v.Upload.Pool.{PendingUpload}
use telegram_hls_streamer_v.Upload.Session.Resume.{Age, age_shown, resume_percent}

-- addActivity: the newest message first, eight of them at most.
unfoldable pub add_message : CodeUnits → List CodeUnits → List CodeUnits
add_message message log = take 8 (message ∷ log)

unfoldable pub add_messages : List CodeUnits → List CodeUnits → List CodeUnits
add_messages [] log = log
add_messages (m ∷ ms) log = add_messages ms (add_message m log)

-- updateUploadProgress, without the speed.
pub record ProgressTexts : Type 0 where
  pub percent : ℕ
  pub uploaded_text : CodeUnits
  pub size_text : CodeUnits
  pub step_text : CodeUnits

unfoldable pub update_upload_progress : ℕ → ℕ → ℕ → ℕ → ProgressTexts
update_upload_progress size uploaded received total = record {
  percent = if ltb 0 size then round_percent uploaded size else 100;
  uploaded_text = format_bytes uploaded;
  size_text = format_bytes size;
  step_text = codes "Chunks " ++ show received ++ codes " / " ++ show total;
}

-- The banner to resume: hidden, or the name, the percentage and the age.
pub data Banner : Type 0 where
  hidden : Banner
  incomplete : String → ℕ → Age → Banner

-- checkResume of the record in localStorage with its age in milliseconds, and dismissResume.
unfoldable pub check_resume : Option (PendingUpload × ℕ) → Banner
check_resume none = hidden
check_resume (some (pending, elapsed)) =
    incomplete pending.pending_filename (resume_percent pending) (age_shown elapsed)

unfoldable pub dismiss_resume : Option (PendingUpload × ℕ) → Option (PendingUpload × ℕ) × Banner
dismiss_resume stored = (none, hidden)

-- The page as cancelUpload sees it; the requests to cancel a job are listed.
pub record CancelPage : Type 0 where
  pub is_cancelled : Bool
  pub controller : Bool
  pub stored : Option (PendingUpload × ℕ)
  pub current_job : Option String
  pub area_disabled : Bool
  pub metadata_hidden : Bool
  pub start_disabled : Bool
  pub aborts : ℕ
  pub cancel_requests : List String

abbrev job_list : Option String → List String
job_list none = []
job_list (some id) = id ∷ []

unfoldable pub cancel_upload : CancelPage → CancelPage
cancel_upload p = record {
  is_cancelled = true;
  controller = false;
  stored = none;
  current_job = none;
  area_disabled = false;
  metadata_hidden = false;
  start_disabled = false;
  aborts = if p.controller then suc p.aborts else p.aborts;
  cancel_requests = p.cancel_requests ++ job_list p.current_job;
}

-- showAnalysis: the badges, for what the file has of each kind.
pub data Badge : Type 0 where
  video_badge : ℕ → Badge
  audio_badge : ℕ → Badge
  subtitle_badge : ℕ → Badge

unfoldable pub show_analysis : ℕ → ℕ → ℕ → List Badge
show_analysis video audio subtitles =
    (if ltb 0 video then video_badge video ∷ [] else [])
    ++ (if ltb 0 audio then audio_badge audio ∷ [] else [])
    ++ (if ltb 0 subtitles then subtitle_badge subtitles ∷ [] else [])

-- showResultCard.
pub record ResultCard : Type 0 where
  pub master_url : CodeUnits
  pub watch_link : CodeUnits

unfoldable pub show_result_card : CodeUnits → CodeUnits → ResultCard
show_result_card origin job_id = record {
  master_url = origin ++ codes "/hls/" ++ job_id ++ codes "/master.m3u8";
  watch_link = codes "/watch/" ++ job_id;
}

-- showError.
pub record ErrorBox : Type 0 where
  pub error_text : Option CodeUnits
  pub progress_hidden : Bool

unfoldable pub show_upload_error : CodeUnits → ErrorBox → ErrorBox
show_upload_error message b = record { error_text = some message; progress_hidden = true }
