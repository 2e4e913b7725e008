-- ===== src/Browse/Seasons/Laws.antt =====
-- static/browse.js: what the cache keeps of each season, and what the page shows of it.
use telegram_hls_streamer_v.Base.{
  true, false, List, [], ◌∷◌, Option, none, some, ◌≡◌, refl, ◌≢◌, arith, All, ap, ◌∙◌, Bool-cases,
  inl, inr,
}
use telegram_hls_streamer_v.Base.Sorting.{sort_by}
use telegram_hls_streamer_v.Browse.Seasons.{
  Episode, Season, same_season, episode_key, Fetched, Detail, cached, show_or_fetch,
  load_season_episodes, click_tab, season_reply, Event, click, reply, step, run,
}

pub same_season_self : (s : Season) → same_season s s ≡ true
same_season_self none = refl
same_season_self (some n) = ground arith

pub same_season-eq : (s t : Season) → same_season s t ≡ true → s ≡ t
same_season-eq none none h = refl
same_season-eq none (some n) h = absurd (cc h)
same_season-eq (some m) none h = absurd (cc h)
same_season-eq (some m) (some n) h = ap some (ground arith)

-- The event is no reply for that season.
abbrev pub IsNotReplyFor : Season → Event → Type 0
IsNotReplyFor s (click t) = Unit
IsNotReplyFor s (reply t jobs) = t ≢ s

cached-show_or_fetch :
    (d : Detail) (s : Season) (o : Option Fetched) → (show_or_fetch d s o).cache ≡ d.cache
unfolding show_or_fetch
cached-show_or_fetch d s none = refl
cached-show_or_fetch d s (some f) = refl

pub cached-click_tab :
    (d : Detail) (s t : Season) → cached (click_tab d t).cache s ≡ cached d.cache s
unfolding click_tab load_season_episodes
cached-click_tab d s t =
    ap (λ c. cached c s) (cached-show_or_fetch (record d { selected = t }) t (cached d.cache t))

different : (s t : Season) → t ≢ s → same_season t s ≡ false
different s t ne = elim (Bool-cases (same_season t s)) [
  | inl e ↦ absurd (ne (same_season-eq t s e))
  | inr e ↦ e
]

cached-step :
    (d : Detail) (s : Season) (e : Event)
    → IsNotReplyFor s e
    → cached (step d e).cache s ≡ cached d.cache s
unfolding step season_reply cached
cached-step d s (click t) h = cached-click_tab d s t
cached-step d s (reply t none) h = refl
cached-step d s (reply t (some jobs)) h = rw (different s t h) refl

cached_arrived :
    (d : Detail) (s : Season) (jobs : List Episode)
    → cached (season_reply d s (some jobs)).cache s
      ≡ some (record { season = s; episodes = sort_by episode_key jobs })
unfolding season_reply cached
cached_arrived d s jobs = rw (same_season_self s) refl

cached-run :
    (d : Detail) (s : Season) (es : List Event)
    → All (IsNotReplyFor s) es
    → cached (run d es).cache s ≡ cached d.cache s
unfolding run
cached-run d s [] h = refl
cached-run d s (e ∷ es) (h, hs) = cached-run (step d e) s es hs ∙ cached-step d s e h

-- Once a season's episodes have arrived, whatever tabs are clicked and whatever replies for other
-- seasons arrive after that, a click on its tab selects it and shows those episodes by number, with no request.
pub click_tab-season_reply :
    (d : Detail) (s : Season) (jobs : List Episode) (es : List Event)
    → All (IsNotReplyFor s) es
    → ((click_tab (run (season_reply d s (some jobs)) es) s).selected ≡ s)
      × ((click_tab (run (season_reply d s (some jobs)) es) s).shown
          ≡ some (record { season = s; episodes = sort_by episode_key jobs }))
      × ((click_tab (run (season_reply d s (some jobs)) es) s).requests
          ≡ (run (season_reply d s (some jobs)) es).requests)
unfolding click_tab load_season_episodes show_or_fetch
click_tab-season_reply d s jobs es h =
    rw (cached-run (season_reply d s (some jobs)) s es h, cached_arrived d s jobs)
      (refl, refl, refl)

-- A late reply is shown in place of what was chosen: if two seasons that are not in the cache are clicked, and the
-- reply for the first comes after that for the second, then the second is selected and the
-- episodes of the first are shown.
pub season_reply-late :
    (d : Detail) (s t : Season) (first second : List Episode)
    → cached d.cache s ≡ none
    → cached d.cache t ≡ none
    → ((run d (click s ∷ click t ∷ reply t (some second) ∷ reply s (some first) ∷ [])).selected ≡ t)
      × ((run d (click s ∷ click t ∷ reply t (some second) ∷ reply s (some first) ∷ [])).current_tab
          ≡ t)
      × ((run d (click s ∷ click t ∷ reply t (some second) ∷ reply s (some first) ∷ [])).shown
          ≡ some (record { season = s; episodes = sort_by episode_key first }))
unfolding run step click_tab load_season_episodes season_reply show_or_fetch
season_reply-late d s t first second hs ht = rw (hs, ht) (refl, refl, refl)
