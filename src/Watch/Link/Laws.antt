-- ===== src/Watch/Link/Laws.antt =====
-- static/watch.js: the searches for metadata and their button.
use telegram_hls_streamer_v.Base.{
  true, false, List, [], ◌∷◌, Option, none, some, ◌≡◌, ◌⊎◌, inl, inr, refl, arith, if_elim, ltb,
  ◌<◌,
}
use telegram_hls_streamer_v.Shared.Text.{trim, is_empty}
use telegram_hls_streamer_v.Watch.MetaId.{DirectId, parse_direct_meta_id}
use telegram_hls_streamer_v.Watch.Link.{
  Found, LinkDialog, close_edit_modal, link_metadata, send_search, search_external_metadata,
  search_reply, link_reply, LinkEvent, search_typed, provider_chosen, search_clicked,
  search_entered, search_answered, result_clicked, link_answered, dialog_closed, link_step,
  link_run,
}

-- The button is disabled only while a search is open.
abbrev pub IsReleased : LinkDialog → Type 0
IsReleased d = (d.button_disabled ≡ false) ⊎ (0 < d.open_searches)

search-IsReleased : (d : LinkDialog) → IsReleased d → IsReleased (search_external_metadata d)
unfolding search_external_metadata send_search link_metadata
search-IsReleased d h =
    if_elim (λ (r : LinkDialog). IsReleased r) (is_empty (trim d.query)) _ _ (λ t. h)
      (λ f. go (parse_direct_meta_id (trim d.query) d.provider))
  where
    go :
        (r : Option DirectId)
        → IsReleased (elim r [
          | none ↦ send_search d
          | some i ↦
              link_metadata
                (record { provider = i.provider; provider_id = i.id; media_kind = i.kind })
                d
        ])
    go none = inr (omega arith)
    go (some i) = h

step-IsReleased : (d : LinkDialog) (e : LinkEvent) → IsReleased d → IsReleased (link_step d e)
unfolding link_step search_reply link_metadata link_reply close_edit_modal
step-IsReleased d (search_typed q) h = h
step-IsReleased d (provider_chosen p) h = h
step-IsReleased d search_clicked h =
    if_elim IsReleased d.button_disabled _ _ (λ t. h) (λ f. search-IsReleased d h)
step-IsReleased d search_entered h = search-IsReleased d h
step-IsReleased d (search_answered reply) h =
    if_elim IsReleased (ltb 0 d.open_searches) _ _ (λ t. inl refl) (λ f. h)
step-IsReleased d (result_clicked f) h = h
step-IsReleased d (link_answered none) h = h
step-IsReleased d (link_answered (some m)) h = h
step-IsReleased d dialog_closed h = h

link_run-IsReleased :
    (d : LinkDialog) (es : List LinkEvent) → IsReleased d → IsReleased (link_run d es)
unfolding link_run
link_run-IsReleased d [] h = h
link_run-IsReleased d (e ∷ es) h = link_run-IsReleased (link_step d e) es (step-IsReleased d e h)

-- Whatever is typed, clicked, searched with Enter, answered in any order and closed, from a dialog whose button takes clicks: once
-- every search that was sent is answered, with results or as a failure, the button takes clicks again.
pub link_run-released :
    (d : LinkDialog) (es : List LinkEvent)
    → d.button_disabled ≡ false
    → (link_run d es).open_searches ≡ 0
    → (link_run d es).button_disabled ≡ false
link_run-released d es free answered = elim (link_run-IsReleased d es (inl free)) [
  | inl h ↦ h
  | inr h ↦ absurd (omega (arith, answered))
]

-- The disabled button does not keep Enter from sending a search beside one that is open; the first reply then
-- frees the button while the other search is open.
pub entered_beside :
    (d : LinkDialog) (reply : Option (List Found))
    → is_empty (trim d.query) ≡ false
    → parse_direct_meta_id (trim d.query) d.provider ≡ none
    → d.button_disabled ≡ true
    → d.open_searches ≡ 1
    → ((link_step d search_entered).open_searches ≡ 2)
      × ((link_run d (search_entered ∷ search_answered reply ∷ [])).button_disabled ≡ false)
      × ((link_run d (search_entered ∷ search_answered reply ∷ [])).open_searches ≡ 1)
unfolding link_run link_step search_external_metadata send_search search_reply
entered_beside d reply filled plain off one = rw (filled, plain, one) (refl, refl, refl)

-- A search that is answered after the dialog was closed fills and shows its results in the closed dialog.
pub closed_dialog_results :
    (d : LinkDialog) (reply : Option (List Found))
    → d.open_searches ≡ 1
    → ((link_run d (dialog_closed ∷ search_answered reply ∷ [])).results_shown ≡ true)
      × ((link_run d (dialog_closed ∷ search_answered reply ∷ [])).active ≡ false)
      × ((link_run d (dialog_closed ∷ search_answered reply ∷ [])).query ≡ [])
unfolding link_run link_step close_edit_modal search_reply
closed_dialog_results d reply h = rw h (refl, refl, refl)
