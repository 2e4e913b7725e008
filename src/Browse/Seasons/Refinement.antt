-- ===== src/Browse/Seasons/Refinement.antt =====
-- static/browse.js: the cache of episodes refines a page that asks the server at every click.
use telegram_hls_streamer_v.Base.{
  List, [], ◌∷◌, Option, none, some, ◌≡◌, refl, ap, ◌∙◌, sym, if_elim,
}
use telegram_hls_streamer_v.Base.Sorting.{sort_by}
use telegram_hls_streamer_v.Browse.Seasons.{
  Episode, Season, same_season, episode_key, Fetched, Detail, cached, show_or_fetch,
  load_season_episodes, click_tab, season_reply, without,
}
use telegram_hls_streamer_v.Browse.Seasons.Laws.{same_season_self, same_season-eq}

-- A server whose answers do not change: a season's episodes, or a failure.
abbrev pub Server : Type 0
Server = Season → Option (List Episode)

-- A click on a tab whose reply, if one is asked for, comes before the next click.
abbrev pub reply_if_asked : Server → Detail → Season → Option Fetched → Detail
reply_if_asked server d s none = season_reply d s (server s)
reply_if_asked server d s (some f) = d

abbrev pub prompt_click : Server → Detail → Season → Detail
prompt_click server d s = reply_if_asked server (click_tab d s) s (cached d.cache s)

abbrev pub prompt_clicks : Server → Detail → List Season → Detail
prompt_clicks server d [] = d
prompt_clicks server d (s ∷ ss) = prompt_clicks server (prompt_click server d s) ss

-- The page without a cache: what is selected and marked, and the server's answer for it.
pub record View : Type 0 where
  pub selected : Season
  pub current_tab : Season
  pub shown : Option Fetched

abbrev pub in_order : Season → Option (List Episode) → Option Fetched
in_order s none = none
in_order s (some jobs) = some (record { season = s; episodes = sort_by episode_key jobs })

abbrev pub view_clicks : Server → View → List Season → View
view_clicks server v [] = v
view_clicks server v (s ∷ ss) =
    view_clicks server (record { selected = s; current_tab = s; shown = in_order s (server s) }) ss

abbrev pub view_of : Detail → View
view_of d = record { selected = d.selected; current_tab = d.current_tab; shown = d.shown }

-- The cache has nothing but answers of the server.
abbrev pub Agrees : Server → List Fetched → Type 0
Agrees server cache =
    (s : Season) (f : Fetched) → cached cache s ≡ some f → some f ≡ in_order s (server s)

-- An empty cache does.
pub Agrees-nil : (server : Server) → Agrees server []
unfolding cached
Agrees-nil server s f h = absurd (cc h)

Agrees-season_reply :
    (server : Server) (d : Detail) (s : Season) (jobs : List Episode)
    → server s ≡ some jobs
    → Agrees server d.cache
    → Agrees server (season_reply d s (some jobs)).cache
unfolding season_reply cached
Agrees-season_reply server d s jobs e h t f c =
    if_elim (λ o. o ≡ some f → some f ≡ in_order t (server t)) (same_season s t) _ _
      (λ k e'. sym e' ∙ rw⁻¹ (same_season-eq s t k) (rw e refl)) (λ k e'. h t f e') c

-- After a click the page shows the server's answer, its cache has only such answers, and no request is left over.
abbrev IsAnswered : Server → Season → List Season → Detail → Type 0
IsAnswered server s requests d =
    (view_of d ≡ record { selected = s; current_tab = s; shown = in_order s (server s) })
    × Agrees server d.cache
    × (d.requests ≡ requests)

asked :
    (server : Server) (d : Detail) (s : Season) (r : Option (List Episode))
    → server s ≡ r
    → cached d.cache s ≡ none
    → Agrees server d.cache
    → IsAnswered server s d.requests (season_reply (click_tab d s) s r)
unfolding click_tab load_season_episodes show_or_fetch season_reply without
asked server d s none e miss h = rw (miss, e, same_season_self s) (refl, h, refl)
asked server d s (some jobs) e miss h =
    rw (miss, e, same_season_self s) (refl, Agrees-season_reply server d s jobs e h, refl)

clicked :
    (server : Server) (d : Detail) (s : Season) (o : Option Fetched)
    → cached d.cache s ≡ o
    → Agrees server d.cache
    → IsAnswered server s d.requests (reply_if_asked server (click_tab d s) s o)
unfolding click_tab load_season_episodes show_or_fetch
clicked server d s none e h = asked server d s (server s) refl e h
clicked server d s (some f) e h =
    rw e (ap (λ o. record { selected = s; current_tab = s; shown = o }) (h s f e), h, refl)

-- The cache is not seen: if the server's answers do not change and each comes before the next click, then after
-- any clicks the page shows and selects the same as a page without a cache, which takes the server's answer at
-- every click, and has no request more without an answer. The cache has to start with answers of the server, as
-- an empty one does.
pub prompt_clicks-view_clicks :
    (server : Server) (d : Detail) (ss : List Season)
    → Agrees server d.cache
    → (view_of (prompt_clicks server d ss) ≡ view_clicks server (view_of d) ss)
      × ((prompt_clicks server d ss).requests ≡ d.requests)
prompt_clicks-view_clicks server d [] h = (refl, refl)
prompt_clicks-view_clicks server d (s ∷ ss) h =
    let k = clicked server d s (cached d.cache s) refl h in
    let m = prompt_clicks-view_clicks server (prompt_click server d s) ss k.1 in
    (m.0 ∙ ap (λ v. view_clicks server v ss) k.0, m.1 ∙ k.2)
