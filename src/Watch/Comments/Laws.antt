-- ===== src/Watch/Comments/Laws.antt =====
-- static/watch.js: the script of the comments is put into the page at most once.
use telegram_hls_streamer_v.Base.{
  ◌≤◌, true, false, not, List, [], ◌∷◌, none, some, if◌then◌else◌, ◌≡◌, ◌≢◌, refl, arith, if_elim,
}
use telegram_hls_streamer_v.Watch.Comments.{
  CommentedJob, CommentsConfig, CommentsPage, is_anime, has_no_id, config_of, embed,
  render_comments, CommentsEvent, rendered, script_ready, comments_step, comments_run,
}

-- As many scripts as the flag says, and a configuration where there is a script.
pub record IsCounted (p : CommentsPage) : Type 0 where
  pub counted : p.scripts ≡ (if p.script_loaded then 1 else 0)
  pub configured : (p.script_loaded ≡ true) → p.config ≢ none

embed-IsCounted :
    (c : CommentsConfig) (p : CommentsPage)
    → IsCounted p
    → IsCounted (embed (record p { config = some c }))
unfolding embed
embed-IsCounted c p h =
    if_elim IsCounted p.can_reload _ _
      (λ r. record { counted = h.counted; configured = λ t. has_config })
      (λ r.
        if_elim IsCounted p.script_loaded _ _
          (λ l. record { counted = h.counted; configured = λ t. has_config })
          (λ l. record { counted = rw (h.counted, l) refl; configured = λ t. has_config }))
  where
    has_config : some c ≢ none
    has_config e = cc e

render_comments-IsCounted :
    (j : CommentedJob) (p : CommentsPage) → IsCounted p → IsCounted (render_comments j p)
unfolding render_comments
render_comments-IsCounted j p h =
    if_elim IsCounted j.comments_disabled _ _ (λ _. h)
      (λ _.
        if_elim IsCounted (not (is_anime j.media_type)) _ _ (λ _. h)
          (λ _.
            if_elim IsCounted (has_no_id j.anilist_id j.mal_id) _ _ (λ _. h)
              (λ _. embed-IsCounted (config_of j) p h)))

comments_run-IsCounted :
    (p : CommentsPage) (vs : List CommentsEvent) → IsCounted p → IsCounted (comments_run p vs)
unfolding comments_run comments_step
comments_run-IsCounted p [] h = h
comments_run-IsCounted p (rendered j ∷ vs) h =
    comments_run-IsCounted (render_comments j p) vs (render_comments-IsCounted j p h)
comments_run-IsCounted p (script_ready ∷ vs) h =
    comments_run-IsCounted (record p { can_reload = true }) vs
      (record { counted = h.counted; configured = h.configured })

-- However often comments are shown, and whenever the script gets ready, the page has at most one script, and a
-- configuration for it.
pub comments_run-scripts :
    (p : CommentsPage) (vs : List CommentsEvent)
    → p.scripts ≡ 0
    → p.script_loaded ≡ false
    → ((comments_run p vs).scripts ≤ 1)
      × ((comments_run p vs).scripts ≡ 1 → (comments_run p vs).config ≢ none)
comments_run-scripts p vs none_yet not_loaded = bounded (comments_run p vs) (
    comments_run-IsCounted p vs (record {
      counted = rw (none_yet, not_loaded) refl;
      configured = λ t. absurd (cc (t, not_loaded));
    }))
  where
    bounded : (q : CommentsPage) → IsCounted q → (q.scripts ≤ 1) × (q.scripts ≡ 1 → q.config ≢ none)
    bounded q h = (ground (arith, h.counted), λ e. h.configured (ground (arith, h.counted)))
