-- ===== src/Upload/Retry/Laws.antt =====
-- How often, how long and with what result a chunk is tried.
use telegram_hls_streamer_v.Base.{
  ℕ, zero, suc, ◌+◌, ◌-◌, ◌*◌, ◌^◌, ◌≤◌, ◌<◌, ◌≡◌, ◌≢◌, refl, ◌∙◌, Bool, true, false, not, List, [],
  ◌∷◌, ◌++◌, Option, none, some, arith, ltb, ◌==◌, filter, All, if_elim, ap, String,
}
use mathlib.Core.List.{append-nil}
use mathlib.Core.Option
use telegram_hls_streamer_v.Upload.Retry.{
  max_retries, Reply, accepted, rate_limited, http_error, network_error, aborted, Round, Ending,
  delivered, upload_cancelled, gave_up, unfinished, rate_limit_wait, handle, try_chunk, send_from,
  send_chunk_with_retry,
}

-- The waits that are not for the rate limit.
abbrev pub backoffs : List ℕ → List ℕ
backoffs = filter (λ w. not (w == rate_limit_wait))

-- 1 s, 2 s, 4 s, ...: the first `n` of them.
abbrev pub schedule : ℕ → List ℕ
schedule zero = []
schedule (suc n) = schedule n ++ (2 ^ n * 1000) ∷ []

-- The backoffs of a call that ended are an initial part of the schedule, and all of its four if the
-- call gave up.
abbrev pub KeepsSchedule : Ending → Type 0
KeepsSchedule (delivered ws) = (k : ℕ) × (k ≤ 4) × (backoffs ws ≡ schedule k)
KeepsSchedule (upload_cancelled ws) = (k : ℕ) × (k ≤ 4) × (backoffs ws ≡ schedule k)
KeepsSchedule (gave_up m ws) = backoffs ws ≡ schedule 4
KeepsSchedule (unfinished ws) = (k : ℕ) × (k ≤ 4) × (backoffs ws ≡ schedule k)

backoffs-append : (xs ys : List ℕ) → backoffs (xs ++ ys) ≡ backoffs xs ++ backoffs ys
backoffs-append [] ys = refl
backoffs-append (x ∷ xs) ys = ground (arith, backoffs-append xs ys)

-- One more backoff, before the last attempt.
backoffs_next :
    (a : ℕ) (ws : List ℕ)
    → a < 4
    → backoffs ws ≡ schedule a
    → backoffs (ws ++ (2 ^ a * 1000) ∷ []) ≡ schedule (suc a)
backoffs_next zero ws h e = backoffs-append ws _ ∙ rw e
backoffs_next (suc zero) ws h e = backoffs-append ws _ ∙ rw e
backoffs_next (suc (suc zero)) ws h e = backoffs-append ws _ ∙ rw e
backoffs_next (suc (suc (suc zero))) ws h e = backoffs-append ws _ ∙ rw e
backoffs_next (suc (suc (suc (suc a)))) ws h e = absurd (omega arith)

backoffs_rate :
    (a : ℕ) (ws : List ℕ)
    → backoffs ws ≡ schedule a
    → backoffs (ws ++ rate_limit_wait ∷ []) ≡ schedule a
backoffs_rate a ws e = backoffs-append ws _ ∙ rw append-nil e

module _ (next : ℕ → List ℕ → Ending)
    (ih : (a : ℕ) (ws : List ℕ) → a ≤ 4 → backoffs ws ≡ schedule a → KeepsSchedule (next a ws))
    (a : ℕ) (ws : List ℕ) (h : a ≤ 4) (e : backoffs ws ≡ schedule a) where
  handle-KeepsSchedule : (c : Bool) (m : String) → KeepsSchedule (handle a c m ws next)
  unfolding handle
  handle-KeepsSchedule true m = (a, h, e)
  handle-KeepsSchedule false m =
      if_elim KeepsSchedule (ltb a (max_retries - 1)) _ _
        (λ lt. ih (suc a) _ (ground arith) (backoffs_next a ws (ground arith) e))
        (λ ge. let last : a ≡ 4 = ground arith in e ∙ ap schedule last)

  try_chunk-KeepsSchedule :
      (b : Bool) (p : Reply) (c : Bool) → KeepsSchedule (try_chunk b p c a ws next)
  unfolding try_chunk
  try_chunk-KeepsSchedule true p c = (a, h, e)
  try_chunk-KeepsSchedule false accepted c = (a, h, e)
  try_chunk-KeepsSchedule false rate_limited c = ih a _ h (backoffs_rate a ws e)
  try_chunk-KeepsSchedule false (http_error m) c = handle-KeepsSchedule c m
  try_chunk-KeepsSchedule false (network_error m) c = handle-KeepsSchedule c m
  try_chunk-KeepsSchedule false aborted c = (a, h, e)

send_from-KeepsSchedule :
    (rs : List Round) (a : ℕ) (ws : List ℕ)
    → a ≤ 4
    → backoffs ws ≡ schedule a
    → KeepsSchedule (send_from a ws rs)
unfolding send_from
send_from-KeepsSchedule [] a ws h e = (a, h, e)
send_from-KeepsSchedule (r ∷ rs) a ws h e =
    try_chunk-KeepsSchedule (λ b vs. send_from b vs rs) (λ b vs. send_from-KeepsSchedule rs b vs) a
      ws h e r.cancelled_before r.reply r.cancelled_after

-- However the call ends, its waits but those for the rate limit are the beginning of 1, 2, 4 and 8
-- seconds; a call that gives up has made all four, so it has tried five times.
pub send_chunk_with_retry-KeepsSchedule :
    (rs : List Round) → KeepsSchedule (send_chunk_with_retry rs)
unfolding send_chunk_with_retry
send_chunk_with_retry-KeepsSchedule rs = send_from-KeepsSchedule rs 0 [] (omega arith) refl

-- The rounds in which neither test finds the upload cancelled and the request is not aborted.
abbrev pub IsUndisturbed : Round → Type 0
IsUndisturbed r = (r.cancelled_before ≡ false) × (r.cancelled_after ≡ false) × (r.reply ≢ aborted)

-- The failures before the first reply that is ok, if there is one.
abbrev ahead : Reply → Option ℕ → Option ℕ
ahead accepted o = some 0
ahead (http_error m) o = Option.map suc o
ahead (network_error m) o = Option.map suc o
ahead rate_limited o = o
ahead aborted o = o

abbrev pub failures_before : List Round → Option ℕ
failures_before [] = none
failures_before (r ∷ rs) = ahead r.reply (failures_before rs)

abbrev pub is_delivered : Ending → Bool
is_delivered (delivered ws) = true
is_delivered _ = false

abbrev within : ℕ → Option ℕ → Bool
within a none = false
within a (some n) = ltb (a + n) max_retries

module _ (next : ℕ → List ℕ → Ending) (o : Option ℕ)
    (ih : (a : ℕ) (ws : List ℕ) → a ≤ 4 → is_delivered (next a ws) ≡ within a o) (a : ℕ)
    (ws : List ℕ) (h : a ≤ 4) where
  handle_delivers :
      (m : String) → is_delivered (handle a false m ws next) ≡ within a (Option.map suc o)
  unfolding handle
  handle_delivers m =
      if_elim (λ e. is_delivered e ≡ within a (Option.map suc o)) (ltb a (max_retries - 1)) _ _
        (λ lt. ih (suc a) _ (ground arith) ∙ shift o) (λ ge. none_left o (ground arith))
    where
      shift : (u : Option ℕ) → within (suc a) u ≡ within a (Option.map suc u)
      shift none = refl
      shift (some n) = ground arith

      none_left : (u : Option ℕ) → a ≡ 4 → false ≡ within a (Option.map suc u)
      none_left none e = refl
      none_left (some n) e = ground arith

  try_chunk_delivers :
      (p : Reply)
      → p ≢ aborted
      → is_delivered (try_chunk false p false a ws next) ≡ within a (ahead p o)
  unfolding try_chunk
  try_chunk_delivers accepted ne = ground arith
  try_chunk_delivers rate_limited ne = ih a _ h
  try_chunk_delivers (http_error m) ne = handle_delivers m
  try_chunk_delivers (network_error m) ne = handle_delivers m
  try_chunk_delivers aborted ne = absurd (ne refl)

send_from_delivers :
    (rs : List Round) (a : ℕ) (ws : List ℕ)
    → All IsUndisturbed rs
    → a ≤ 4
    → is_delivered (send_from a ws rs) ≡ within a (failures_before rs)
unfolding send_from
send_from_delivers [] a ws u h = refl
send_from_delivers (r ∷ rs) a ws ((b, c, ok), u) h =
    rw (b, c)
      (try_chunk_delivers (λ a' vs. send_from a' vs rs) (failures_before rs)
        (λ a' vs k. send_from_delivers rs a' vs u k) a ws h r.reply ok)

-- A call that nobody cancels delivers the chunk exactly if a reply is ok and fewer than five
-- failures come before it; replies of status 429 do not count.
pub send_chunk_with_retry_delivers :
    (rs : List Round)
    → All IsUndisturbed rs
    → is_delivered (send_chunk_with_retry rs)
      ≡ elim (failures_before rs) [ none ↦ false | some n ↦ ltb n max_retries ]
unfolding send_chunk_with_retry
send_chunk_with_retry_delivers rs u =
    send_from_delivers rs 0 [] u (omega arith) ∙ plain (failures_before rs)
  where
    plain : (o : Option ℕ) → within 0 o ≡ elim o [ none ↦ false | some n ↦ ltb n max_retries ]
    plain none = refl
    plain (some n) = ground arith

-- The rounds that are not answered by 429.
abbrev other : Reply → ℕ
other rate_limited = 0
other _ = 1

abbrev pub answered : List Round → ℕ
answered [] = 0
answered (r ∷ rs) = other r.reply + answered rs

abbrev pub IsOver : Ending → Type 0
IsOver (unfinished ws) = ⊥
IsOver _ = Unit

module _ (next : ℕ → List ℕ → Ending) (n : ℕ)
    (ih : (a : ℕ) (ws : List ℕ) → 5 ≤ a + n → a ≤ 4 → IsOver (next a ws)) (a : ℕ) (ws : List ℕ)
    (h : a ≤ 4) where
  handle-IsOver : (c : Bool) (m : String) → 5 ≤ suc a + n → IsOver (handle a c m ws next)
  unfolding handle
  handle-IsOver true m k = tt
  handle-IsOver false m k =
      if_elim IsOver (ltb a (max_retries - 1)) _ _ (λ lt. ih (suc a) _ (omega arith) (ground arith))
        (λ _. tt)

  try_chunk-IsOver :
      (b : Bool) (p : Reply) (c : Bool) → 5 ≤ a + (other p + n) → IsOver (try_chunk b p c a ws next)
  unfolding try_chunk
  try_chunk-IsOver true p c k = tt
  try_chunk-IsOver false accepted c k = tt
  try_chunk-IsOver false rate_limited c k = ih a _ (omega arith) h
  try_chunk-IsOver false (http_error m) c k = handle-IsOver c m (omega arith)
  try_chunk-IsOver false (network_error m) c k = handle-IsOver c m (omega arith)
  try_chunk-IsOver false aborted c k = tt

send_from-IsOver :
    (rs : List Round) (a : ℕ) (ws : List ℕ)
    → 5 ≤ a + answered rs
    → a ≤ 4
    → IsOver (send_from a ws rs)
unfolding send_from
send_from-IsOver [] a ws k h = absurd (omega arith)
send_from-IsOver (r ∷ rs) a ws k h =
    try_chunk-IsOver (λ a' vs. send_from a' vs rs) (answered rs)
      (λ a' vs k' h'. send_from-IsOver rs a' vs k' h') a ws h r.cancelled_before r.reply
      r.cancelled_after k

-- The loop ends by the fifth reply that is not 429, whatever the replies are.
pub send_chunk_with_retry-IsOver :
    (rs : List Round) → 5 ≤ answered rs → IsOver (send_chunk_with_retry rs)
unfolding send_chunk_with_retry
send_chunk_with_retry-IsOver rs h = send_from-IsOver rs 0 [] (omega arith) (omega arith)
