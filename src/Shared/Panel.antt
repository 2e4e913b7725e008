-- ===== src/Shared/Panel.antt =====
-- static/shared.js: the panel of active jobs and its timer.
pub mod Laws
use telegram_hls_streamer_v.Base.{
  ℕ, suc, Bool, true, false, not, ◌&&◌, List, [], ◌∷◌, Option, none, some, if◌then◌else◌, ◌==◌,
  filter,
}

-- The panel. `live` are the intervals that the browser still runs; ids are given in order.
pub record Panel : Type 0 where
  pub is_open : Bool
  pub hidden : Bool
  pub poll_timer : Option ℕ
  pub live : List ℕ
  pub next_id : ℕ
  pub polls : ℕ

abbrev pub clear_interval : ℕ → List ℕ → List ℕ
clear_interval i ids = filter (λ j. not (j == i)) ids

unfoldable pub stop_polling : Panel → Panel
stop_polling p = elim p.poll_timer [
  | none ↦ p
  | some i ↦ record p { live = clear_interval i p.live; poll_timer = none }
]

unfoldable pub set_poll_timer : Panel → Panel
set_poll_timer p = record p {
  poll_timer = some p.next_id;
  live = p.next_id ∷ p.live;
  next_id = suc p.next_id;
}

unfoldable pub start_polling : Panel → Panel
start_polling p = set_poll_timer (stop_polling p)

-- pollActiveJobs asks the server; its answer changes the list of jobs only.
abbrev pub poll_active_jobs : Panel → Panel
poll_active_jobs p = record p { polls = suc p.polls }

abbrev pub show_panel : Bool → Panel → Panel
show_panel on p = record p { is_open = on; hidden = not on }

unfoldable pub toggle_jobs_panel : Panel → Panel
toggle_jobs_panel p =
    if p.is_open
    then stop_polling (show_panel false p)
    else start_polling (poll_active_jobs (show_panel true p))

-- A click anywhere; the flags say whether it is inside the panel or inside the pill.
unfoldable pub click_document : Bool → Bool → Panel → Panel
click_document in_panel in_pill p =
    if p.is_open && not in_panel && not in_pill
    then stop_polling (record p { is_open = false; hidden = true })
    else p

pub data PanelEvent : Type 0 where
  toggled : PanelEvent
  clicked : Bool → Bool → PanelEvent

unfoldable pub panel_step : Panel → PanelEvent → Panel
panel_step p toggled = toggle_jobs_panel p
panel_step p (clicked in_panel in_pill) = click_document in_panel in_pill p

unfoldable pub panel_run : Panel → List PanelEvent → Panel
panel_run p [] = p
panel_run p (v ∷ vs) = panel_run (panel_step p v) vs

-- The page at its start; the interval that always runs is no part of the panel.
abbrev pub closed_panel : Panel
closed_panel = record {
  is_open = false;
  hidden = true;
  poll_timer = none;
  live = [];
  next_id = 1;
  polls = 0;
}
