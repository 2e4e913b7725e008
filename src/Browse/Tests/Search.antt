-- ===== src/Browse/Tests/Search.antt =====
-- The theorems on the searches and on the links of series, at concrete inputs.
use telegram_hls_streamer_v.Base.{◌≡◌, refl, true, false, List, [], ◌∷◌, Option, none, some, inr}
use telegram_hls_streamer_v.Base.Decimal.{CodeUnits, codes}
use telegram_hls_streamer_v.Shared.Text.{trim, trim_start}
use telegram_hls_streamer_v.Browse.Palette.{href_of}
use telegram_hls_streamer_v.Browse.Palette.Texts.{ListedJob, palette_job}
use telegram_hls_streamer_v.Browse.Palette.Search.{
  Search, SearchEvent, typed_text, timer_fired, answered, open_search, search_run, search_step,
  answer, deliver, timer_fires, type_text, schedule_search, send, show_reply,
}
use telegram_hls_streamer_v.Browse.Palette.Search.Laws.{items_for, search_run_shows}
use telegram_hls_streamer_v.Browse.Request.{
  Context, series_list, SearchPage, Server, PageEvent, typed_query, query_due, page_answered,
}
use telegram_hls_streamer_v.Browse.Cards.{CardJob, series_href}
use telegram_hls_streamer_v.Browse.Cards.Laws.{series_href-href_of}
use telegram_hls_streamer_v.Browse.Home.Cards.{home_series_href}

abbrev series : ListedJob
series = record {
  job_id = codes "a1";
  filename = codes "a.mkv";
  media_type = codes "Anime TV";
  video_height = 1080;
  duration = 1440000;
  is_series = true;
  episode_count = some 12;
  series_name = codes "Frieren: Beyond";
}

-- The server fails for the empty query.
abbrev found_by : CodeUnits → Option (List ListedJob)
found_by [] = none
found_by (c ∷ cs) = some (series ∷ [])

abbrev closed : Search
closed = record {
  palette = record { shown = some false; items = []; rows = 0; active = none };
  input = [];
  timer = none;
  in_flight = codes "old" ∷ [];
  shown_for = none;
}

abbrev session : List SearchEvent
session =
    typed_text (codes "f")
    ∷ timer_fired
    ∷ answered 0
    ∷ typed_text (codes "fr ")
    ∷ answered 0
    ∷ timer_fired
    ∷ answered 0
    ∷ answered 0
    ∷ []

search_run_shows_example :
    ((search_run found_by (open_search closed) session).shown_for
      ≡ some (trim (search_run found_by (open_search closed) session).input))
    × ((search_run found_by (open_search closed) session).palette.items
        ≡ items_for found_by (trim (search_run found_by (open_search closed) session).input))
unfolding search_run search_step answer deliver timer_fires type_text schedule_search trim
    trim_start open_search send show_reply
search_run_shows_example =
    search_run_shows found_by closed session refl (tt, (tt, (tt, (tt, (tt, (tt, (tt, (tt, tt))))))))
      refl refl

abbrev anime_page : Context
anime_page = record {
  view = series_list;
  category = codes "Anime TV";
  series_name = [];
  season_number = none;
}

abbrev any_page : Server
any_page url = some (record { jobs = "a" ∷ []; has_more = false })

abbrev loaded_page : SearchPage
loaded_page = record {
  query = [];
  timer = false;
  requests = [];
  listing = record { all_jobs = "b" ∷ []; jobs_page = 3; has_more_jobs = true };
}

abbrev typing : List PageEvent
typing = query_due ∷ typed_query (codes "fr") ∷ page_answered 0 ∷ query_due ∷ page_answered 0 ∷ []

abbrev card : CardJob
card = record {
  job_id = codes "a1";
  filename = codes "a.mkv";
  media_type = codes "Anime TV";
  series_name = codes "Frieren: Beyond";
  episode_title = [];
  season_number = none;
  episode_number = none;
  part_number = none;
  episode_count = 12;
  video_height = 1080;
  audio_count = 0;
  duration = 1440000;
  has_thumbnail = true;
  poster_url = [];
  progress_pct = 0;
}

series_href-href_of_example :
    (series_href anime_page card ≡ home_series_href card)
    × (series_href anime_page card ≡ href_of (palette_job series))
series_href-href_of_example =
    series_href-href_of anime_page card series (inr refl) refl refl refl refl (λ e. cc e)
