-- ===== src/Browse/Tests/Lists.antt =====
-- The theorems on the dialog of a job and the cache of episodes, at concrete inputs.
use telegram_hls_streamer_v.Base.{
  ℕ, ◌≡◌, refl, true, false, [], ◌∷◌, ◌++◌, none, some, String, if◌then◌else◌, integer, ◌==◌,
}
use telegram_hls_streamer_v.Base.Decimal.{codes}
use telegram_hls_streamer_v.Shared.Category.{tv_series, series_media}
use telegram_hls_streamer_v.Watch.Edit.{Job, Form, save_edit_modal, update_edit_modal_fields}
use telegram_hls_streamer_v.Watch.Edit.Laws.{ShowsWhatItStores}
use telegram_hls_streamer_v.Browse.Edit.{Library, save_job, save_job_reply}
use telegram_hls_streamer_v.Browse.Edit.Laws.{save_job_reply-update}
use telegram_hls_streamer_v.Browse.Seasons.{Detail}
use telegram_hls_streamer_v.Browse.Seasons.Refinement.{
  Server, prompt_clicks, view_of, view_clicks, Agrees-nil, prompt_clicks-view_clicks,
}

abbrev series_job : String → ℕ → Job
series_job id n = record {
  job_id = codes id;
  filename = codes "x.mkv";
  media_type = series_media;
  is_series = true;
  series_name = codes "X";
  season_number = some (integer 1);
  episode_number = some (integer n);
  part_number = none;
}

abbrev fifth : Form
fifth = record {
  title = codes "Y";
  category = tv_series;
  series = codes "X ";
  season = codes "1";
  episode = codes "5";
  part = [];
}

abbrev library : Library
library = record {
  all_jobs = series_job "a" 1 ∷ series_job "b" 2 ∷ series_job "c" 3 ∷ [];
  active = true;
  edit_job_id = codes "b";
  form = fifth;
  groups = update_edit_modal_fields tv_series;
  save_disabled = false;
}

save_job_reply-update_example :
    ((save_job_reply true (save_job library)).all_jobs
      ≡ (series_job "a" 1 ∷ [])
        ++ save_edit_modal fifth true (series_job "b" 2) ∷ series_job "c" 3 ∷ [])
    × ShowsWhatItStores
        (update_edit_modal_fields tv_series)
        fifth
        (save_edit_modal fifth true (series_job "b" 2))
    × ((save_job_reply false (save_job library)).all_jobs ≡ library.all_jobs)
save_job_reply-update_example =
    save_job_reply-update library (series_job "a" 1 ∷ []) (series_job "c" 3 ∷ []) (series_job "b" 2)
      refl (refl, tt) refl

abbrev empty_detail : Detail
empty_detail = record {
  selected = some 1;
  current_tab = some 1;
  cache = [];
  shown = none;
  requests = [];
}

-- It has a first season, and fails for the others.
abbrev one_season : Server
one_season none = none
one_season (some n) =
    if n == 1 then some (record { job_id = "a"; episode_number = some 1 } ∷ []) else none

prompt_clicks-view_clicks_example :
    (view_of (prompt_clicks one_season empty_detail (some 1 ∷ none ∷ some 1 ∷ []))
      ≡ view_clicks one_season (view_of empty_detail) (some 1 ∷ none ∷ some 1 ∷ []))
    × ((prompt_clicks one_season empty_detail (some 1 ∷ none ∷ some 1 ∷ [])).requests ≡ [])
prompt_clicks-view_clicks_example =
    prompt_clicks-view_clicks one_season empty_detail (some 1 ∷ none ∷ some 1 ∷ [])
      (Agrees-nil one_season)
