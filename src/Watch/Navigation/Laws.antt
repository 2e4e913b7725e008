-- ===== src/Watch/Navigation/Laws.antt =====
-- static/watch.js: the order of the episodes, and that the links before and after belong together.
use telegram_hls_streamer_v.Base.{ℕ, true, List, [], ◌∷◌, Option, none, some, String, ◌≡◌, ◌≢◌, All}
use telegram_hls_streamer_v.Base.Sorting.{IsSorted, sort_by-IsSorted, sort_by-Perm}
use telegram_hls_streamer_v.Shared.Category.{
  MediaType, film_media, series_media, anime_film_media, anime_tv_media, other_media,
}
use telegram_hls_streamer_v.Watch.Navigation.{
  Sibling, part_key, episode_key, fetch_siblings, season_asked, EpisodeNav,
}
use mathlib.Core.List.{Perm}

abbrev pub order_key : MediaType → Sibling → ℕ
order_key film_media = part_key
order_key _ = episode_key

-- The siblings of a series are the jobs of the reply, none lost and none added, by part for films
-- and by episode otherwise.
pub fetch_siblings-IsSorted :
    (media : MediaType) (jobs : List Sibling)
    → IsSorted (order_key media) (fetch_siblings media true (some jobs))
      × Perm (fetch_siblings media true (some jobs)) jobs
unfolding fetch_siblings
fetch_siblings-IsSorted film_media jobs =
    (sort_by-IsSorted part_key jobs, sort_by-Perm part_key jobs)
fetch_siblings-IsSorted series_media jobs =
    (sort_by-IsSorted episode_key jobs, sort_by-Perm episode_key jobs)
fetch_siblings-IsSorted anime_film_media jobs =
    (sort_by-IsSorted episode_key jobs, sort_by-Perm episode_key jobs)
fetch_siblings-IsSorted anime_tv_media jobs =
    (sort_by-IsSorted episode_key jobs, sort_by-Perm episode_key jobs)
fetch_siblings-IsSorted other_media jobs =
    (sort_by-IsSorted episode_key jobs, sort_by-Perm episode_key jobs)

-- No two jobs have the same name.
abbrev pub IsDistinct : List Sibling → Type 0
IsDistinct [] = Unit
IsDistinct (s ∷ ss) = All (λ t. t.job_id ≢ s.job_id) ss × IsDistinct ss

abbrev pub HasId : String → Option Sibling → Type 0
HasId id none = ⊥
HasId id (some s) = s.job_id ≡ id

-- There is a link to the episode before, and it goes to the job of that name.
abbrev pub HasPrev : String → Option EpisodeNav → Type 0
HasPrev id none = ⊥
HasPrev id (some v) = HasId id v.prev

-- The list that the page of a job of the type and season works with.
abbrev pub listed_for : MediaType → (Option ℕ → Option (List Sibling)) → Option ℕ → List Sibling
listed_for media server season = fetch_siblings media true (server (season_asked media season))

-- Every job of the answer to a request for a season is of that season.
abbrev pub IsOfSeason : Option ℕ → Option (List Sibling) → Type 0
IsOfSeason season none = Unit
IsOfSeason season (some jobs) = All (λ s. s.season_number ≡ season) jobs
