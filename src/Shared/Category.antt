-- ===== src/Shared/Category.antt =====
-- static/shared.js: the categories of the pages, and the fields of the database that stand for them.
use telegram_hls_streamer_v.Base.{Bool, true, false}

-- The keys of CATEGORY_DB.
pub data Category : Type 0 where
  film : Category
  film_series : Category
  tv_series : Category
  anime_film : Category
  anime_tv : Category
  anime_tv_series : Category

-- The values of a job's `media_type`; the database may hold others.
pub data MediaType : Type 0 where
  film_media : MediaType
  series_media : MediaType
  anime_film_media : MediaType
  anime_tv_media : MediaType
  other_media : MediaType

pub record DbFields : Type 0 where
  pub media_type : MediaType
  pub is_series : Bool

unfoldable pub category_db : Category → DbFields
category_db film = record { media_type = film_media; is_series = false }
category_db film_series = record { media_type = film_media; is_series = true }
category_db tv_series = record { media_type = series_media; is_series = true }
category_db anime_film = record { media_type = anime_film_media; is_series = false }
category_db anime_tv = record { media_type = anime_tv_media; is_series = false }
category_db anime_tv_series = record { media_type = anime_tv_media; is_series = true }

-- The lists of categories that upload.js, watch.js and browse.js test with `includes`.
abbrev pub is_single : Category → Bool
is_single film = true
is_single anime_film = true
is_single _ = false

abbrev pub is_episodic : Category → Bool
is_episodic tv_series = true
is_episodic anime_tv = true
is_episodic anime_tv_series = true
is_episodic _ = false
