-- ===== src/Browse/Tests.antt =====
-- The theorems on the pages that list the library, at concrete inputs.
mod Lists
mod Search
use telegram_hls_streamer_v.Base.{
  String, round_percent, eq_iff, str_eq, ◌≡◌, ◌≢◌, refl, [], some, none, arith, false,
}
use telegram_hls_streamer_v.Browse.Home.{Recent, annotate}
use telegram_hls_streamer_v.Browse.Home.Laws.{annotate-save_progress}
use telegram_hls_streamer_v.Watch.Progress.{lookup, save_progress}

abbrev recent : Recent
recent = record { job_id = "a"; progress_pct = none; resume_seconds = none }

differ : (s t : String) → str_eq s t ≡ false → s ≢ t
differ s t h = grind (arith, eq_iff)

annotate-save_progress_example :
    annotate none (lookup (save_progress "a" 30500 60000 9 []) "a") recent
    ≡ record recent { progress_pct = some 51; resume_seconds = some 30 }
unfolding round_percent
annotate-save_progress_example =
    annotate-save_progress recent 30500 60000 9 [] (differ "a" "" refl) (omega arith) (omega arith)
      (omega arith)
