-- ===== src/Watch/Comments.antt =====
-- static/watch.js: the comments of the community below an anime.
pub mod Laws
use telegram_hls_streamer_v.Base.{
  ℕ, suc, Bool, true, false, not, List, [], ◌∷◌, Option, none, some, if◌then◌else◌,
}
use telegram_hls_streamer_v.Base.Decimal.{CodeUnits, codes, show}
use telegram_hls_streamer_v.Shared.Category.{MediaType, anime_film_media, anime_tv_media}

-- What the page uses of a job; `comments_disabled` is a flag that is exactly false, and an id that JavaScript takes
-- for false is none.
pub record CommentedJob : Type 0 where
  pub comments_disabled : Bool
  pub media_type : MediaType
  pub anilist_id : Option CodeUnits
  pub mal_id : Option CodeUnits
  pub episode_number : Option ℕ

-- `theAnimeCommunityConfig`.
pub record CommentsConfig : Type 0 where
  pub config_anilist : Option CodeUnits
  pub config_mal : Option CodeUnits
  pub episode_chapter_number : CodeUnits

-- The page: its configuration, whether the other site's script is there and can be asked to show its comments
-- again, `_tacScriptLoaded`, and how many script elements and how many reloads there were.
pub record CommentsPage : Type 0 where
  pub config : Option CommentsConfig
  pub can_reload : Bool
  pub script_loaded : Bool
  pub scripts : ℕ
  pub reloads : ℕ

abbrev pub is_anime : MediaType → Bool
is_anime anime_film_media = true
is_anime anime_tv_media = true
is_anime _ = false

abbrev pub number_or_one : Option ℕ → CodeUnits
number_or_one none = codes "1"
number_or_one (some n) = show n

abbrev pub episode_text : MediaType → Option ℕ → CodeUnits
episode_text anime_film_media n = codes "0"
episode_text _ n = number_or_one n

abbrev pub has_no_id : Option CodeUnits → Option CodeUnits → Bool
has_no_id none none = true
has_no_id _ _ = false

unfoldable pub config_of : CommentedJob → CommentsConfig
config_of j = record {
  config_anilist = j.anilist_id;
  config_mal = j.mal_id;
  episode_chapter_number = episode_text j.media_type j.episode_number;
}

unfoldable pub embed : CommentsPage → CommentsPage
embed p =
    if p.can_reload
    then record p { reloads = suc p.reloads }
    else if p.script_loaded
    then p
    else record p { script_loaded = true; scripts = suc p.scripts }

unfoldable pub render_comments : CommentedJob → CommentsPage → CommentsPage
render_comments j p =
    if j.comments_disabled
    then p
    else if not (is_anime j.media_type)
    then p
    else if has_no_id j.anilist_id j.mal_id
    then p
    else embed (record p { config = some (config_of j) })

pub data CommentsEvent : Type 0 where
  rendered : CommentedJob → CommentsEvent
  script_ready : CommentsEvent

unfoldable pub comments_step : CommentsPage → CommentsEvent → CommentsPage
comments_step p (rendered j) = render_comments j p
comments_step p script_ready = record p { can_reload = true }

unfoldable pub comments_run : CommentsPage → List CommentsEvent → CommentsPage
comments_run p [] = p
comments_run p (v ∷ vs) = comments_run (comments_step p v) vs
