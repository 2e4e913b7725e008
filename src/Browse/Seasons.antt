-- ===== src/Browse/Seasons.antt =====
-- static/browse.js: the seasons of a series, the chosen one, and the episodes that the page shows, which
-- it fetches once for each season.
pub mod Laws
pub mod Refinement
use telegram_hls_streamer_v.Base.{
  ℕ, Bool, true, false, List, [], ◌∷◌, Option, none, some, if◌then◌else◌, String, ◌==◌, or_default,
}
use telegram_hls_streamer_v.Base.Sorting.{sort_by}

-- What the page uses of an episode, and the number of a season: `none` is null, the specials.
pub record Episode : Type 0 where
  pub job_id : String
  pub episode_number : Option ℕ

abbrev pub Season : Type 0
Season = Option ℕ

abbrev pub same_season : Season → Season → Bool
same_season none none = true
same_season none (some n) = false
same_season (some m) none = false
same_season (some m) (some n) = m == n

abbrev pub episode_key : Episode → ℕ
episode_key e = or_default e.episode_number 0

-- Specials stand after all seasons.
abbrev pub season_key : Season → ℕ
season_key none = 1000000000
season_key (some n) = n

unfoldable pub sorted_seasons : List Season → List Season
sorted_seasons seasons = sort_by season_key seasons

-- `sortedSeasons[0]?.season_number ?? null`.
abbrev pub first_season : List Season → Season
first_season [] = none
first_season (s ∷ ss) = s

pub record Fetched : Type 0 where
  pub season : Season
  pub episodes : List Episode

-- `_seriesDetailSelected`, the tab marked as current, `_seriesDetailEpisodes`, and the list on the page; a
-- message stands there before the first one. `requests` are those without an answer.
pub record Detail : Type 0 where
  pub selected : Season
  pub current_tab : Season
  pub cache : List Fetched
  pub shown : Option Fetched
  pub requests : List Season

unfoldable pub cached : List Fetched → Season → Option Fetched
cached [] s = none
cached (f ∷ fs) s = let rest = cached fs s in if same_season f.season s then some f else rest

-- The end of loadSeasonEpisodes: from the cache, or by a request.
unfoldable pub show_or_fetch : Detail → Season → Option Fetched → Detail
show_or_fetch d s none = record d { current_tab = s; requests = s ∷ d.requests }
show_or_fetch d s (some f) = record d { current_tab = s; shown = some f }

unfoldable pub load_season_episodes : Detail → Season → Detail
load_season_episodes d s = show_or_fetch d s (cached d.cache s)

-- A click on a tab.
unfoldable pub click_tab : Detail → Season → Detail
click_tab d s = load_season_episodes (record d { selected = s }) s

unfoldable pub without : Season → List Season → List Season
without s [] = []
without s (t ∷ ts) = let rest = without s ts in if same_season t s then ts else t ∷ rest

-- The reply to a request for a season; `none` stands for one that failed, which puts a message there.
unfoldable pub season_reply : Detail → Season → Option (List Episode) → Detail
season_reply d s none = record d { shown = none; requests = without s d.requests }
season_reply d s (some jobs) = record d {
  cache = record { season = s; episodes = sort_by episode_key jobs } ∷ d.cache;
  shown = some (record { season = s; episodes = sort_by episode_key jobs });
  requests = without s d.requests;
}

-- The page opens with its first season.
unfoldable pub open_detail : List Season → Detail
open_detail seasons =
    load_season_episodes
      (record {
        selected = first_season (sorted_seasons seasons);
        current_tab = first_season (sorted_seasons seasons);
        cache = [];
        shown = none;
        requests = [];
      })
      (first_season (sorted_seasons seasons))

pub data Event : Type 0 where
  click : Season → Event
  reply : Season → Option (List Episode) → Event

unfoldable pub step : Detail → Event → Detail
step d (click s) = click_tab d s
step d (reply s jobs) = season_reply d s jobs

unfoldable pub run : Detail → List Event → Detail
run d [] = d
run d (e ∷ es) = run (step d e) es
