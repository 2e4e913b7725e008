-- ===== src/Settings/Labels.antt =====
-- static/settings.js: the labels of settings, their units, and numbers as a person reads them.
use telegram_hls_streamer_v.Base.{
  ℕ, ◌/◌, ◌%◌, Bool, ◌||◌, ◌&&◌, List, [], ◌∷◌, ◌++◌, Option, none, some, if◌then◌else◌, leb, ◌==◌,
  map, String,
}
use telegram_hls_streamer_v.Base.Decimal.{CodeUnits, codes, show}
use telegram_hls_streamer_v.Shared.Text.{capitalized, same_text, starts_with, split_on, join_with}
use telegram_hls_streamer_v.Shared.Slug.{to_lower_case}
use telegram_hls_streamer_v.Shared.Format.{to_fixed}
use telegram_hls_streamer_v.Settings.Units.{UnitKind, bytes, seconds, minutes, days, mb, plain}
use mathlib.Core.List.{reverse}

pub record Label : Type 0 where
  pub key : CodeUnits
  pub text : CodeUnits

abbrev pub label : String → String → Label
label k t = record { key = codes k; text = codes t }

abbrev pub setting_labels : List Label
setting_labels =
    label "HOST" "Bind address"
    ∷ label "PORT" "Port"
    ∷ label "FORCE_HTTPS" "Force HTTPS"
    ∷ label "BEHIND_PROXY" "Behind proxy"
    ∷ label "TRUSTED_PROXY_CIDRS" "Trusted proxy ranges"
    ∷ label "CORS_ALLOWED_ORIGINS" "Allowed CORS origins"
    ∷ label "TELEGRAM_MAX_FILE_SIZE" "Telegram file limit"
    ∷ label "MAX_UPLOAD_SIZE" "Maximum upload size"
    ∷ label "UPLOAD_CHUNK_SIZE" "Upload chunk size"
    ∷ label "SEGMENT_TARGET_SIZE" "Target segment size"
    ∷ label "SEGMENT_CACHE_SIZE_MB" "Segment cache budget"
    ∷ label "SEGMENT_PREFETCH_COUNT" "Prefetch count"
    ∷ label "SEGMENT_PREFETCH_MIN_FREE_BYTES" "Minimum free cache space"
    ∷ label "ENABLE_HW_ACCEL" "Hardware acceleration"
    ∷ label "PREFERRED_ENCODER" "Preferred encoder"
    ∷ label "VAAPI_DEVICE" "VAAPI device"
    ∷ label "MAX_PARALLEL_ENCODES" "Parallel encodes"
    ∷ label "VIDEO_BITRATE" "Default video bitrate"
    ∷ label "AUDIO_BITRATE" "Default audio bitrate"
    ∷ label "AUDIO_SEGMENT_DURATION" "Audio segment duration"
    ∷ label "ABR_ENABLED" "Create ABR variants"
    ∷ label "ENABLE_COPY_MODE" "Keep source tier"
    ∷ label "VIRTUAL_ABR_TIERS" "On-demand ABR"
    ∷ label "ABR_TIERS" "Playback ABR tiers"
    ∷ label "TIER0_BITRATES" "Source tier bitrates"
    ∷ label "TIER0_BITRATE_DEFAULT" "Default source tier bitrate"
    ∷ label "JOB_TIMEOUT_SECONDS" "Job timeout"
    ∷ label "QUEUE_TIMEOUT_SECONDS" "Queue timeout"
    ∷ label "PENDING_UPLOAD_TTL_SECONDS" "Pending upload expiry"
    ∷ label "PENDING_UPLOAD_CLEANUP_INTERVAL_SECONDS" "Pending cleanup interval"
    ∷ label "JOB_RETENTION_DAYS" "Job retention"
    ∷ label "MAX_CONCURRENT_JOBS" "Concurrent jobs"
    ∷ label "UPLOAD_RATE_LIMIT_WINDOW" "Rate limit window"
    ∷ label "UPLOAD_RATE_LIMIT_MAX_REQUESTS" "Rate limit requests"
    ∷ label "MAX_PENDING_UPLOADS_PER_IP" "Pending uploads per IP"
    ∷ label "WATCH_POLL_SECONDS" "Watch scan interval"
    ∷ label "WATCH_STABLE_SECONDS" "File stability delay"
    ∷ label "WATCH_VIDEO_EXTENSIONS" "Video extensions"
    ∷ label "WATCH_IGNORE_SUFFIXES" "Ignored suffixes"
    ∷ label "UPLOAD_PARALLELISM" "Upload parallelism"
    ∷ label "DB_SYNC_ENABLED" "Sync database to bots"
    ∷ label "DB_SYNC_BOOTSTRAP" "DB sync bootstrap"
    ∷ label "DB_AUTO_MERGE_INTERVAL_MINUTES" "Auto-merge interval"
    ∷ label "DB_AUTO_MERGE_FILE_ID" "Auto-merge file ID"
    ∷ label "DB_AUTO_MERGE_BOT_INDEX" "Auto-merge bot index"
    ∷ label "WEBHOOK_URL" "Webhook URL"
    ∷ label "CLOUDFLARED_ENABLED" "Cloudflared enabled"
    ∷ label "CLOUDFLARED_CONFIG" "Cloudflared config path"
    ∷ []

unfoldable pub label_in : List Label → CodeUnits → Option CodeUnits
label_in [] key = none
label_in (l ∷ ls) key =
    let rest = label_in ls key in if same_text l.key key then some l.text else rest

-- `part.charAt(0).toUpperCase() + part.slice(1)` of a part in lower case; a key is of ASCII letters.
abbrev pub label_or : Option CodeUnits → CodeUnits → CodeUnits
label_or (some t) key = t
label_or none key = join_with 32 (map capitalized (split_on 95 (to_lower_case key)))

unfoldable pub humanize_key : CodeUnits → CodeUnits
humanize_key key = label_or (label_in setting_labels key) key

-- `/suffix$/.test(key)`.
abbrev pub ends_with : String → CodeUnits → Bool
ends_with suffix key = starts_with (reverse (codes suffix)) (reverse key)

-- `plain` stands for null.
unfoldable pub unit_kind : CodeUnits → UnitKind
unit_kind key =
    if ends_with "_SIZE" key || ends_with "_BYTES" key
    then bytes
    else if ends_with "_SECONDS" key
    then seconds
    else if ends_with "_DAYS" key
    then days
    else if ends_with "_MINUTES" key
    then minutes
    else if ends_with "_MB" key
    then mb
    else plain

-- `(num / unit).toFixed(1)` and `.toFixed(0)`, the nearest, the larger of two: the unit is even.
abbrev pub fixed1 : ℕ → ℕ → CodeUnits
fixed1 num unit =
    let tenths = to_fixed 10 num (unit / 2) in show (tenths / 10) ++ 46 ∷ show (tenths % 10)

abbrev pub fixed0 : ℕ → ℕ → CodeUnits
fixed0 num unit = show (to_fixed 1 num (unit / 2))

-- humanizeUnit of a whole number. `toLocaleString` is the browser's, a parameter.
unfoldable pub humanize_unit : (ℕ → CodeUnits) → UnitKind → ℕ → CodeUnits
humanize_unit locale bytes num =
    if leb 1073741824 num
    then fixed1 num 1073741824 ++ codes " GB"
    else if leb 1048576 num
    then fixed1 num 1048576 ++ codes " MB"
    else if leb 1024 num
    then fixed1 num 1024 ++ codes " KB"
    else show num ++ codes " B"
humanize_unit locale seconds num =
    if leb 86400 num && (num % 86400 == 0)
    then show (num / 86400) ++ codes " days"
    else if leb 86400 num
    then fixed1 num 86400 ++ codes " days"
    else if leb 3600 num && (num % 3600 == 0)
    then show (num / 3600) ++ codes "h"
    else if leb 3600 num
    then fixed1 num 3600 ++ codes "h"
    else if leb 60 num && (num % 60 == 0)
    then show (num / 60) ++ codes " min"
    else if leb 60 num
    then fixed0 num 60 ++ codes " min"
    else show num ++ codes "s"
humanize_unit locale days num =
    if num == 0
    then codes "forever"
    else show num ++ (if num == 1 then codes " day" else codes " days")
humanize_unit locale minutes num = if num == 0 then codes "disabled" else show num ++ codes " min"
humanize_unit locale mb num = locale num ++ codes " MB"
humanize_unit locale plain num = []

-- formatDisplay of a whole number, by the kind of its key.
unfoldable pub format_display : (ℕ → CodeUnits) → CodeUnits → ℕ → CodeUnits
format_display locale key num = display (unit_kind key)
  where
    display : UnitKind → CodeUnits
    display bytes =
        if leb 1073741824 num
        then codes "(" ++ fixed1 num 1073741824 ++ codes " GB)"
        else if leb 1048576 num
        then codes "(" ++ fixed1 num 1048576 ++ codes " MB)"
        else if leb 1024 num
        then codes "(" ++ fixed1 num 1024 ++ codes " KB)"
        else codes "(" ++ show num ++ codes " bytes)"
    display seconds =
        if leb 86400 num
        then codes "(" ++ fixed1 num 86400 ++ codes " days)"
        else if leb 3600 num
        then codes "(" ++ fixed1 num 3600 ++ codes " hours)"
        else if leb 60 num
        then codes "(" ++ fixed0 num 60 ++ codes " min)"
        else codes "(" ++ show num ++ codes " sec)"
    display days =
        if num == 0
        then codes "(forever)"
        else codes "("
          ++ show num
          ++ codes " day"
          ++ (if num == 1 then [] else codes "s")
          ++ codes ")"
    display minutes =
        if num == 0 then codes "(disabled)" else codes "(" ++ show num ++ codes " min)"
    display mb = codes "(" ++ locale num ++ codes " megabytes)"
    display plain = []
