-- ===== src/Watch/Tests.antt =====
-- The theorems on the page that plays a video, at concrete inputs.
mod Pages
use telegram_hls_streamer_v.Base.{
  ℕ, ◌≡◌, ◌≢◌, refl, [], ◌∷◌, some, none, arith, ◌⊎◌, true, false, String, List, Option, ◌==◌,
  if◌then◌else◌, integer, str_eq, eq_iff,
}
use telegram_hls_streamer_v.Base.Decimal.{codes}
use telegram_hls_streamer_v.Shared.Category.{film_series, series_media}
use telegram_hls_streamer_v.Watch.Progress.{
  Entry, lookup, save_progress, saved_position, resume_position, VideoEvent, updated, paused,
  seeked,
}
use telegram_hls_streamer_v.Watch.Progress.Laws.{
  lookup-save_progress, kept, resume_position-save_progress,
}
use telegram_hls_streamer_v.Watch.Edit.{Job, Form, save_edit_modal, update_edit_modal_fields}
use telegram_hls_streamer_v.Watch.Edit.Laws.{ShowsWhatItStores, save_edit_modal-Shows}
use telegram_hls_streamer_v.Watch.Navigation.{Sibling}
use telegram_hls_streamer_v.Watch.Skip.{Marker, intro, Player}
use telegram_hls_streamer_v.Watch.Recovery.{
  Page, PlayerError, loads, init_player, default_config, errors,
}
use telegram_hls_streamer_v.Watch.Recovery.Laws.{Stage, errors-init_player}

differ : (s t : String) → str_eq s t ≡ false → s ≢ t
differ s t h = grind (arith, eq_iff)

abbrev other_entry : Entry
other_entry = record {
  job = "b";
  progress = record { pct = 50; seconds = 30; duration = 60; ts = 7 };
}

lookup-save_progress_example :
    (lookup (save_progress "a" 30000 60000 9 (other_entry ∷ [])) "a" ≡ kept 30000 60000 9)
    × (lookup (save_progress "a" 30000 60000 9 (other_entry ∷ [])) "b"
        ≡ lookup (other_entry ∷ []) "b")
lookup-save_progress_example =
    lookup-save_progress "a" "b" 30000 60000 9 (other_entry ∷ []) (differ "a" "" refl) (omega arith)
      (differ "b" "a" refl)

abbrev known : ℕ
known = 60000

abbrev resumed : ℕ
resumed =
    resume_position (saved_position none (lookup (save_progress "a" 30500 60000 9 []) "a")) known

resume_position_example : resumed ≡ 30000
resume_position_example =
    resume_position-save_progress "a" 30500 60000 9 60000 [] (differ "a" "" refl) (omega arith)

abbrev played : List VideoEvent
played = updated 10000 ∷ updated 12000 ∷ seeked 12500 ∷ updated 20000 ∷ paused 21000 ∷ []

abbrev episode_job : Job
episode_job = record {
  job_id = codes "a";
  filename = codes "x.mkv";
  media_type = series_media;
  is_series = true;
  series_name = codes "X";
  season_number = some (integer 1);
  episode_number = some (integer 2);
  part_number = none;
}

abbrev part_form : Form
part_form = record {
  title = codes "X";
  category = film_series;
  series = codes "X ";
  season = codes "1";
  episode = codes "2";
  part = codes "3";
}

save_edit_modal-Shows_example :
    ShowsWhatItStores
      (update_edit_modal_fields film_series)
      part_form
      (save_edit_modal part_form true episode_job)
save_edit_modal-Shows_example = save_edit_modal-Shows part_form episode_job

abbrev episode : String → ℕ → Sibling
episode id n = record {
  job_id = id;
  season_number = some 1;
  episode_number = some n;
  part_number = none;
}

abbrev reply : List Sibling
reply = episode "b" 2 ∷ episode "a" 1 ∷ []

abbrev special : Sibling
special = record { job_id = "s"; season_number = none; episode_number = some 0; part_number = none }

-- All jobs for a request without a season, those of the season otherwise.
abbrev season_server : Option ℕ → Option (List Sibling)
season_server none = some (special ∷ reply)
season_server (some n) = some (if n == 1 then reply else [])

abbrev opening : Marker
opening = record { marker_type = intro; start_time = 5000; end_time = 90000; enabled = true }

abbrev skip_player : Player
skip_player = record { position = 0; text = none; visible = false; fades_at = none }

abbrev watch_page : Page
watch_page = record {
  config = default_config true;
  attempted_quota_recovery = false;
  current_time = 61;
  notices = [];
  inits = 0;
}

abbrev full_buffer : PlayerError
full_buffer = record { code = 3017; message = "QUOTA_EXCEEDED"; restart = loads 0 }

errors-init_player_example :
    Stage 1 (errors true (init_player true none watch_page) (full_buffer ∷ full_buffer ∷ []))
errors-init_player_example = errors-init_player true watch_page (full_buffer ∷ full_buffer ∷ [])
