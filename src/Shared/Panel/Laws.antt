-- ===== src/Shared/Panel/Laws.antt =====
-- static/shared.js: the panel of jobs is open exactly while its one timer runs.
use telegram_hls_streamer_v.Base.{
  ℕ, Bool, true, false, not, ◌&&◌, List, [], ◌∷◌, none, some, ◌≡◌, refl, if_elim, ◌⊎◌, inl, inr,
  arith,
}
use telegram_hls_streamer_v.Shared.Panel.{
  Panel, clear_interval, stop_polling, set_poll_timer, start_polling, poll_active_jobs, show_panel,
  toggle_jobs_panel, click_document, PanelEvent, toggled, clicked, panel_step, panel_run,
  closed_panel,
}

-- Closed without an interval, or open with exactly the one that the page knows.
pub record IsQuiet (p : Panel) : Type 0 where
  pub is_closed : p.is_open ≡ false
  pub is_hidden : p.hidden ≡ true
  pub no_timer : p.poll_timer ≡ none
  pub none_live : p.live ≡ []

pub record IsPolling (p : Panel) (i : ℕ) : Type 0 where
  pub is_open : p.is_open ≡ true
  pub is_shown : p.hidden ≡ false
  pub timer : p.poll_timer ≡ some i
  pub one_live : p.live ≡ i ∷ []

abbrev pub IsSound : Panel → Type 0
IsSound p = IsQuiet p ⊎ ((i : ℕ) × IsPolling p i)

clear_interval-one : (i : ℕ) → clear_interval i (i ∷ []) ≡ []
clear_interval-one i = ground arith

stopped : (p : Panel) (i : ℕ) → IsPolling p i → IsQuiet (stop_polling (show_panel false p))
unfolding stop_polling
stopped p i k = record {
  is_closed = rw (k.timer) refl;
  is_hidden = rw (k.timer) refl;
  no_timer = rw (k.timer) refl;
  none_live = rw (k.timer, k.one_live, clear_interval-one i) refl;
}

started :
    (p : Panel)
    → IsQuiet p
    → IsPolling (start_polling (poll_active_jobs (show_panel true p))) p.next_id
unfolding start_polling set_poll_timer stop_polling
started p k = record {
  is_open = rw (k.no_timer) refl;
  is_shown = rw (k.no_timer) refl;
  timer = rw (k.no_timer) refl;
  one_live = rw (k.no_timer, k.none_live) refl;
}

toggle_jobs_panel-IsSound : (p : Panel) → IsSound p → IsSound (toggle_jobs_panel p)
unfolding toggle_jobs_panel
toggle_jobs_panel-IsSound p (inl k) = rw (k.is_closed) (inr (p.next_id, started p k))
toggle_jobs_panel-IsSound p (inr (i, k)) = rw (k.is_open) (inl (stopped p i k))

click_document-IsSound :
    (in_panel in_pill : Bool) (p : Panel) → IsSound p → IsSound (click_document in_panel in_pill p)
unfolding click_document
click_document-IsSound in_panel in_pill p (inl k) =
    if_elim IsSound (p.is_open && not in_panel && not in_pill) _ _
      (λ t. absurd (cc (t, k.is_closed))) (λ t. inl k)
click_document-IsSound in_panel in_pill p (inr (i, k)) =
    if_elim IsSound (p.is_open && not in_panel && not in_pill) _ _ (λ t. inl (stopped p i k))
      (λ t. inr (i, k))

panel_step-IsSound : (p : Panel) (v : PanelEvent) → IsSound p → IsSound (panel_step p v)
unfolding panel_step
panel_step-IsSound p toggled h = toggle_jobs_panel-IsSound p h
panel_step-IsSound p (clicked in_panel in_pill) h = click_document-IsSound in_panel in_pill p h

panel_run-IsSound : (p : Panel) (vs : List PanelEvent) → IsSound p → IsSound (panel_run p vs)
unfolding panel_run
panel_run-IsSound p [] h = h
panel_run-IsSound p (v ∷ vs) h = panel_run-IsSound (panel_step p v) vs (panel_step-IsSound p v h)

-- After any sequence of toggles and clicks the panel is either closed, hidden and without an interval, or
-- open, shown, and with exactly one interval, the one that closing it clears: no interval is left behind.
pub panel_run-closed_panel : (vs : List PanelEvent) → IsSound (panel_run closed_panel vs)
panel_run-closed_panel vs =
    panel_run-IsSound closed_panel vs
      (inl (record { is_closed = refl; is_hidden = refl; no_timer = refl; none_live = refl }))
