-- ===== src/Upload/Poll.antt =====
-- static/upload.js, pollStatus: the replies of /api/status/<id> and what the page makes of each. The
-- timer and failed fetches, which change nothing, are left out: the input is the replies in order.
pub mod Laws
use telegram_hls_streamer_v.Base.{
  ℕ, zero, suc, ◌+◌, ◌/◌, Bool, true, false, not, ◌||◌, List, [], ◌∷◌, Option, none, some,
  if◌then◌else◌, str_eq, String, or_text, or_default, take,
}

pub record StatusData : Type 0 where
  pub status : String
  pub description : Option String
  pub error : Option String
  pub queue_position : Option ℕ
  pub queue_depth : Option ℕ
  pub step : Option ℕ
  pub total_steps : Option ℕ
  pub progress : Option ℕ

-- The texts of the status line; the numbers in a template are its arguments.
pub data Label : Type 0 where
  queued_at : ℕ → ℕ → Label
  queued_position : ℕ → Label
  text : String → Label
  failed_with : String → Label

unfoldable pub queue_label : Option ℕ → Option ℕ → Label
queue_label (some position) (some depth) = queued_at position depth
queue_label (some position) none = queued_position position
queue_label none depth = text "Queued for processing..."

unfoldable pub label_of : StatusData → Label
unfolding queue_label
label_of d =
    if str_eq d.status "queued"
    then queue_label d.queue_position d.queue_depth
    else if str_eq d.status "analyzing"
    then text (or_text d.description "Analyzing video streams...")
    else if str_eq d.status "processing"
    then text (or_text d.description "Processing video, audio, subtitles, and thumbnail...")
    else if str_eq d.status "uploading"
    then text (or_text d.description "Uploading HLS output to Telegram...")
    else if str_eq d.status "complete"
    then text "Complete!"
    else if str_eq d.status "error"
    then failed_with (or_text d.error "Unknown")
    else text d.status

-- How the promise is settled.
pub data Outcome : Type 0 where
  resolved : String → Outcome
  rejected : String → Outcome

pub record PollState : Type 0 where
  pub last_status : String
  pub last_description : String
  pub shown_label : Option Label
  pub shown_step : Option (ℕ × ℕ)
  pub shown_progress : Option ℕ
  pub entries : List Label
  pub polling : Bool
  pub outcome : Option Outcome

unfoldable pub poll_init : PollState
poll_init = record {
  last_status = "";
  last_description = "";
  shown_label = none;
  shown_step = none;
  shown_progress = none;
  entries = [];
  polling = true;
  outcome = none;
}

-- A promise is settled once: a later call of `resolve` or `reject` does nothing.
abbrev settle : Option Outcome → Outcome → Option Outcome
settle none o = some o
settle (some first) o = some first

-- `if (data.step)`: a step of 0 counts as absent.
unfoldable pub step_shown : Option (ℕ × ℕ) → Option ℕ → Option ℕ → Option (ℕ × ℕ)
step_shown shown none total = shown
step_shown shown (some zero) total = shown
step_shown shown (some (suc n)) total = some (suc n, or_default total 5)

-- `Math.round` of the progress, which is given in hundredths.
unfoldable pub progress_shown : Option ℕ → Option ℕ → Option ℕ
progress_shown shown none = shown
progress_shown shown (some hundredths) = some ((hundredths + 50) / 100)

-- The tests on `data.status` at the end of the handler.
unfoldable pub verdict : String → StatusData → Option Outcome
verdict job_id d =
    if str_eq d.status "complete"
    then some (resolved job_id)
    else if str_eq d.status "error"
    then some (rejected (or_text d.error "Processing failed"))
    else none

abbrev pub is_news : PollState → StatusData → Bool
is_news p d =
    not (str_eq d.status p.last_status)
    || not (str_eq (or_text d.description "") p.last_description)

-- clearInterval and the settling, if the reply is the last one.
abbrev finish : Option Outcome → PollState → PollState
finish none p = p
finish (some o) p = record p { polling = false; outcome = settle p.outcome o }

unfoldable pub poll_step : String → PollState → StatusData → PollState
poll_step job_id p d = finish (verdict job_id d) (record p {
  shown_label = some (label_of d);
  shown_step = step_shown p.shown_step d.step d.total_steps;
  shown_progress = progress_shown p.shown_progress d.progress;
  entries = if is_news p d then take 8 (label_of d ∷ p.entries) else p.entries;
  last_status = if is_news p d then d.status else p.last_status;
  last_description = if is_news p d then or_text d.description "" else p.last_description;
})

unfoldable pub poll_from : String → PollState → List StatusData → PollState
poll_from job_id p [] = p
poll_from job_id p (d ∷ ds) = poll_from job_id (poll_step job_id p d) ds

unfoldable pub poll_status : String → List StatusData → PollState
poll_status job_id replies = poll_from job_id poll_init replies
