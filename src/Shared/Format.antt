-- ===== src/Shared/Format.antt =====
-- static/shared.js and common.js: sizes and times as they are shown. Times are in milliseconds, so that
-- what the code rounds is rounded here.
pub mod Laws
use telegram_hls_streamer_v.Base.{
  ℕ, zero, suc, ◌+◌, ◌*◌, ◌/◌, ◌%◌, [], ◌∷◌, ◌++◌, if◌then◌else◌, ltb, Option, none, some,
}
use telegram_hls_streamer_v.Base.Decimal.{CodeUnits, codes, show}

-- What formatBytes shows: bytes, tenths of a KB or an MB, hundredths of a GB.
pub data Size : Type 0 where
  in_bytes : ℕ → Size
  in_kb : ℕ → Size
  in_mb : ℕ → Size
  in_gb : ℕ → Size

-- `(n / unit).toFixed(d)` in units of the last digit: the nearest, the larger of two.
abbrev pub to_fixed : ℕ → ℕ → ℕ → ℕ
to_fixed scale n half = (n * scale + half) / (2 * half)

unfoldable pub size_of : ℕ → Size
size_of bytes =
    if ltb bytes 1024
    then in_bytes bytes
    else if ltb bytes 1048576
    then in_kb (to_fixed 10 bytes 512)
    else if ltb bytes 1073741824
    then in_mb (to_fixed 10 bytes 524288)
    else in_gb (to_fixed 100 bytes 536870912)

abbrev pub pad2 : ℕ → CodeUnits
pad2 n = if ltb n 10 then 48 ∷ show n else show n

unfoldable pub show_size : Size → CodeUnits
show_size (in_bytes n) = show n ++ codes " B"
show_size (in_kb n) = show (n / 10) ++ codes "." ++ show (n % 10) ++ codes " KB"
show_size (in_mb n) = show (n / 10) ++ codes "." ++ show (n % 10) ++ codes " MB"
show_size (in_gb n) = show (n / 100) ++ codes "." ++ pad2 (n % 100) ++ codes " GB"

unfoldable pub format_bytes : ℕ → CodeUnits
format_bytes bytes = show_size (size_of bytes)

-- What formatTime shows.
pub data Span : Type 0 where
  unknown : Span
  seconds_only : ℕ → Span
  minutes_seconds : ℕ → ℕ → Span
  hours_minutes : ℕ → ℕ → Span

-- The branches of formatTime; `none` stands for a time that is negative or not finite.
unfoldable pub span_of : Option ℕ → Span
span_of none = unknown
span_of (some ms) =
    if ltb ms 60000
    then seconds_only ((ms + 500) / 1000)
    else if ltb ms 3600000
    then minutes_seconds ((ms + 30000) / 60000) ((ms % 60000 + 500) / 1000)
    else hours_minutes (ms / 3600000) ((ms % 3600000 + 30000) / 60000)

unfoldable pub show_span : Span → CodeUnits
show_span unknown = codes "?"
show_span (seconds_only s) = show s ++ codes "s"
show_span (minutes_seconds m s) = show m ++ codes "m " ++ show s ++ codes "s"
show_span (hours_minutes h m) = show h ++ codes "h " ++ show m ++ codes "m"

unfoldable pub format_time : Option ℕ → CodeUnits
format_time t = show_span (span_of t)

-- Hours, minutes and seconds of a duration.
pub record Clock : Type 0 where
  pub hours : ℕ
  pub minutes : ℕ
  pub seconds : ℕ

-- formatDuration of shared.js, whose seconds are rounded last, and that of common.js, where they
-- are rounded first.
unfoldable pub clock_of : ℕ → Clock
clock_of ms = record {
  hours = ms / 3600000;
  minutes = (ms % 3600000) / 60000;
  seconds = (ms % 60000 + 500) / 1000;
}

abbrev pub whole_seconds : ℕ → ℕ
whole_seconds ms = (ms + 500) / 1000

unfoldable pub common_clock_of : ℕ → Clock
common_clock_of ms = record {
  hours = whole_seconds ms / 3600;
  minutes = (whole_seconds ms % 3600) / 60;
  seconds = whole_seconds ms % 60;
}

-- The template, where an hour or more is there to show.
unfoldable pub show_clock : Clock → CodeUnits
show_clock k =
    if ltb 0 k.hours
    then show k.hours ++ codes ":" ++ pad2 k.minutes ++ codes ":" ++ pad2 k.seconds
    else show k.minutes ++ codes ":" ++ pad2 k.seconds

unfoldable pub format_duration : ℕ → CodeUnits
format_duration zero = []
format_duration (suc n) = show_clock (clock_of (suc n))

unfoldable pub common_format_duration : ℕ → CodeUnits
common_format_duration zero = []
common_format_duration (suc n) = show_clock (common_clock_of (suc n))
