-- ===== src/Upload/Retry.antt =====
-- static/upload.js, sendChunkWithRetry: one chunk is sent, again after a failure and after a wait.
-- What happens in each round of the loop is an input: the reply, and whether the user has cancelled
-- by the time of each test of `isCancelled`.
pub mod Laws
use telegram_hls_streamer_v.Base.{
  ℕ, suc, ◌+◌, ◌-◌, ◌*◌, ◌^◌, Bool, true, false, List, [], ◌∷◌, ◌++◌, if◌then◌else◌, ltb, String,
}

-- `MAX_RETRIES`.
abbrev pub max_retries : ℕ
max_retries = 5

-- What `fetch` brings: a reply that is ok, status 429, another status with the message of its body,
-- a network error, or the abort of the request.
pub data Reply : Type 0 where
  accepted : Reply
  rate_limited : Reply
  http_error : String → Reply
  network_error : String → Reply
  aborted : Reply

-- One round: the test at its head, the reply, and the test in the handler.
pub record Round : Type 0 where
  pub cancelled_before : Bool
  pub reply : Reply
  pub cancelled_after : Bool

-- How the call ends, with the waits (in ms) that it made. `unfinished`: it is still running when the
-- rounds given are over.
pub data Ending : Type 0 where
  delivered : List ℕ → Ending
  upload_cancelled : List ℕ → Ending
  gave_up : String → List ℕ → Ending
  unfinished : List ℕ → Ending

-- `60_000`.
abbrev pub rate_limit_wait : ℕ
rate_limit_wait = 60000

-- The handler: cancel, give up, or wait `Math.pow(2, attempt) * 1000` and go round again.
unfoldable pub handle : ℕ → Bool → String → List ℕ → (ℕ → List ℕ → Ending) → Ending
handle attempt true message waits next = upload_cancelled waits
handle attempt false message waits next =
    if ltb attempt (max_retries - 1)
    then next (suc attempt) (waits ++ (2 ^ attempt * 1000) ∷ [])
    else gave_up message waits

-- One round of the loop, whose later rounds are `next`. A 429 leaves `attempt` as it is: `attempt--`
-- undoes the loop's step.
unfoldable pub try_chunk : Bool → Reply → Bool → ℕ → List ℕ → (ℕ → List ℕ → Ending) → Ending
try_chunk true reply cancelled attempt waits next = upload_cancelled waits
try_chunk false accepted cancelled attempt waits next = delivered waits
try_chunk false rate_limited cancelled attempt waits next =
    next attempt (waits ++ rate_limit_wait ∷ [])
try_chunk false (http_error m) cancelled attempt waits next = handle attempt cancelled m waits next
try_chunk false (network_error m) cancelled attempt waits next =
    handle attempt cancelled m waits next
try_chunk false aborted cancelled attempt waits next = upload_cancelled waits

unfoldable pub send_from : ℕ → List ℕ → List Round → Ending
send_from attempt waits [] = unfinished waits
send_from attempt waits (r ∷ rs) =
    try_chunk r.cancelled_before r.reply r.cancelled_after attempt waits (λ a ws. send_from a ws rs)

unfoldable pub send_chunk_with_retry : List Round → Ending
send_chunk_with_retry rounds = send_from 0 [] rounds
