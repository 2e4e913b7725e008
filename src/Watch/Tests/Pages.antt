-- ===== src/Watch/Tests/Pages.antt =====
-- The theorems on the page, the panel and the search for metadata, at concrete inputs.
use telegram_hls_streamer_v.Base.{
  String, ◌≡◌, ◌≢◌, refl, true, false, List, [], ◌∷◌, none, arith, str_eq, eq_iff,
}
use telegram_hls_streamer_v.Base.Decimal.{CodeUnits, codes}
use telegram_hls_streamer_v.Browse.Cards.{CardJob, video_href}
use telegram_hls_streamer_v.Watch.Progress.{lookup, save_progress, saved_position, resume_position}
use telegram_hls_streamer_v.Watch.Page.{JobReply, job_found, job_failed, open_reply, open_page}
use telegram_hls_streamer_v.Watch.Page.Laws.{open_page-video_href}
use telegram_hls_streamer_v.Watch.Info.{resume_at}
use telegram_hls_streamer_v.Watch.Info.Laws.{offered, resume_at-resume_position}
use telegram_hls_streamer_v.Watch.Link.{
  LinkDialog, nothing_listed, no_info, LinkEvent, search_typed, search_clicked, search_entered,
  search_answered, dialog_closed, close_edit_modal, send_search, search_external_metadata,
  search_reply, link_step, link_run,
}
use telegram_hls_streamer_v.Shared.Text.{trim, trim_start}
use telegram_hls_streamer_v.Watch.MetaId.{parse_direct_meta_id}
use telegram_hls_streamer_v.Base.Regex.{exec, text_ignoring_case}
use telegram_hls_streamer_v.Watch.Link.Laws.{link_run-released}

abbrev card : CardJob
card = record {
  job_id = codes "0af3";
  filename = codes "x.mkv";
  media_type = codes "Film";
  series_name = [];
  episode_title = [];
  season_number = none;
  episode_number = none;
  part_number = none;
  episode_count = 0;
  video_height = 720;
  audio_count = 1;
  duration = 60000;
  has_thumbnail = false;
  poster_url = [];
  progress_pct = 0;
}

abbrev by_id : CodeUnits → JobReply CodeUnits
by_id [] = job_failed (codes "Job not found")
by_id (c ∷ cs) = job_found (c ∷ cs)

open_page-video_href_example : open_page (video_href card) by_id ≡ open_reply (by_id (codes "0af3"))
open_page-video_href_example =
    open_page-video_href card by_id (refl, (refl, (refl, (refl, tt)))) (λ e. cc e)

named : (s t : String) → str_eq s t ≡ false → s ≢ t
named s t h = grind (arith, eq_iff)

resume_at-resume_position_example :
    offered (resume_at (lookup (save_progress "a" 61500 120000 9 []) "a"))
    ≡ resume_position
        (saved_position none (lookup (save_progress "a" 61500 120000 9 []) "a"))
        120000
resume_at-resume_position_example =
    resume_at-resume_position "a" 61500 120000 9 [] (named "a" "" refl) (omega arith)

abbrev dialog : LinkDialog
dialog = record {
  active = true;
  provider = codes "tmdb";
  query = [];
  results = nothing_listed;
  results_shown = false;
  info = no_info;
  button_disabled = false;
  open_searches = 0;
  links = [];
}

abbrev clicks : List LinkEvent
clicks =
    search_typed (codes "Alien")
    ∷ search_clicked
    ∷ search_entered
    ∷ search_answered none
    ∷ search_clicked
    ∷ dialog_closed
    ∷ search_answered none
    ∷ search_answered none
    ∷ []

link_run-released_example : (link_run dialog clicks).button_disabled ≡ false
unfolding link_run link_step search_external_metadata send_search search_reply close_edit_modal trim
    trim_start parse_direct_meta_id exec text_ignoring_case
link_run-released_example = link_run-released dialog clicks refl refl
