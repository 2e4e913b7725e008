-- ===== src/Shared/Format/Laws.antt =====
-- static/shared.js and common.js: how close what is shown is to what is meant.
use telegram_hls_streamer_v.Base.{
  ℕ, zero, suc, ◌+◌, ◌*◌, ◌/◌, ◌%◌, ◌≤◌, ◌<◌, if◌then◌else◌, ltb, some, arith, ◌≡◌, refl, ◌↔◌,
  if_elim, ap,
}
use telegram_hls_streamer_v.Shared.Format.{
  Size, in_bytes, in_kb, in_mb, in_gb, size_of, minutes_seconds, span_of, clock_of, common_clock_of,
  whole_seconds, show_clock, format_duration, common_format_duration,
}

-- The shown size, times the unit, is within half a unit of the last digit shown.
abbrev IsCloseTo : ℕ → Size → Type 0
IsCloseTo bytes (in_bytes n) = n ≡ bytes
IsCloseTo bytes (in_kb n) = (n * 1024 ≤ bytes * 10 + 512) × (bytes * 10 < n * 1024 + 512)
IsCloseTo bytes (in_mb n) =
    (n * 1048576 ≤ bytes * 10 + 524288) × (bytes * 10 < n * 1048576 + 524288)
IsCloseTo bytes (in_gb n) =
    (n * 1073741824 ≤ bytes * 100 + 536870912) × (bytes * 100 < n * 1073741824 + 536870912)

-- formatBytes shows a size to half a unit of its last digit, whichever unit it takes.
pub size_of-IsCloseTo : (bytes : ℕ) → IsCloseTo bytes (size_of bytes)
unfolding size_of
size_of-IsCloseTo bytes =
    if_elim (IsCloseTo bytes) (ltb bytes 1024) _ _ (λ t. refl)
      (λ f.
        if_elim (IsCloseTo bytes) (ltb bytes 1048576) _ _ (λ t. (omega arith, omega arith))
          (λ g.
            if_elim (IsCloseTo bytes) (ltb bytes 1073741824) _ _ (λ t. (omega arith, omega arith))
              (λ h. (omega arith, omega arith))))

-- The clock of common.js is that of the duration rounded to whole seconds: its minutes and seconds are
-- below 60, and together its parts are the rounded duration.
pub common_clock_of-whole_seconds :
    (ms : ℕ)
    → ((common_clock_of ms).hours * 3600
          + (common_clock_of ms).minutes * 60
          + (common_clock_of ms).seconds
        ≡ whole_seconds ms)
      × ((common_clock_of ms).minutes < 60)
      × ((common_clock_of ms).seconds < 60)
unfolding common_clock_of
common_clock_of-whole_seconds ms = (omega arith, omega arith, omega arith)

clock_of-common_clock_of : (n : ℕ) → clock_of (n * 1000) ≡ common_clock_of (n * 1000)
unfolding clock_of common_clock_of
clock_of-common_clock_of n =
    let h : n * 1000 / 3600000 ≡ whole_seconds (n * 1000) / 3600 = omega arith in
    let m : n * 1000 % 3600000 / 60000 ≡ whole_seconds (n * 1000) % 3600 / 60 = omega arith in
    let s : (n * 1000 % 60000 + 500) / 1000 ≡ whole_seconds (n * 1000) % 60 = omega arith in
    rw (h, m, s) refl

-- On whole seconds the two files show a duration alike.
pub format_duration-common_format_duration :
    (n : ℕ) → format_duration (n * 1000) ≡ common_format_duration (n * 1000)
unfolding format_duration common_format_duration
format_duration-common_format_duration n = same (n * 1000) (clock_of-common_clock_of n)
  where
    same :
        (ms : ℕ) → clock_of ms ≡ common_clock_of ms → format_duration ms ≡ common_format_duration ms
    same zero e = refl
    same (suc k) e = ap show_clock e

-- Otherwise shared.js may show 60 seconds: exactly when less than half a second is missing from a full minute.
pub clock_of-seconds : (ms : ℕ) → ((clock_of ms).seconds ≡ 60) ↔ (59500 ≤ ms % 60000)
unfolding clock_of
clock_of-seconds ms = (λ h. omega arith, λ h. omega arith)

-- Of a time of m minutes and s seconds, which is below an hour, formatTime shows one minute too many whenever s is 30 or more,
-- and m minutes otherwise.
pub span_of-minutes_seconds :
    (m s : ℕ)
    → 0 < m
    → m < 60
    → s < 60
    → span_of (some (m * 60000 + s * 1000))
      ≡ (if ltb s 30 then minutes_seconds m s else minutes_seconds (suc m) s)
unfolding span_of
span_of-minutes_seconds m s pos lt ls =
    let shown_minutes : (m * 60000 + s * 1000 + 30000) / 60000 ≡ (if ltb s 30 then m else suc m) =
      ground arith in
    let shown_seconds : ((m * 60000 + s * 1000) % 60000 + 500) / 1000 ≡ s = omega arith in
    rw (shown_minutes, shown_seconds) (ground arith)
