-- ===== src/Settings/WatchFolder.antt =====
-- static/settings.js: the folder that the server watches: a switch, the checkbox behind it, two folders and
-- the status.
pub mod Laws
use telegram_hls_streamer_v.Base.{Bool, true, false, not, List, [], ◌∷◌, if◌then◌else◌, String}
use telegram_hls_streamer_v.Base.Decimal.{CodeUnits}
use telegram_hls_streamer_v.Shared.Text.{trim}
use telegram_hls_streamer_v.Settings.Fields.{Status, busy, good, bad}

-- What the server says of the folder, and what is posted.
pub record WatchData : Type 0 where
  pub watch_enabled : Bool
  pub watch_root : CodeUnits
  pub watch_done_dir : CodeUnits
  pub watch_running : Bool

pub record WatchPost : Type 0 where
  pub post_enabled : Bool
  pub post_root : CodeUnits
  pub post_done_dir : CodeUnits

-- The page; `no_watcher` is the message without a class.
pub data WatchStatus : Type 0 where
  told : Status → WatchStatus
  no_watcher : WatchStatus

pub record WatchPage : Type 0 where
  pub checkbox : Bool
  pub switch_on : Bool
  pub root : CodeUnits
  pub done_dir : CodeUnits
  pub watch_status : WatchStatus
  pub save_disabled : Bool

unfoldable pub saved_status : WatchData → WatchStatus
saved_status d =
    if d.watch_enabled
    then told
        (good (if d.watch_running then "Saved. Watcher active." else "Saved. Watcher pending."))
    else no_watcher

unfoldable pub apply_watch_settings : WatchData → WatchPage → WatchPage
apply_watch_settings d p = record p {
  checkbox = d.watch_enabled;
  switch_on = d.watch_enabled;
  root = d.watch_root;
  done_dir = d.watch_done_dir;
  watch_status = saved_status d;
}

unfoldable pub click_switch : WatchPage → WatchPage
click_switch p = record p { switch_on = not p.switch_on; checkbox = not p.switch_on }

unfoldable pub posted_settings : WatchPage → WatchPost
posted_settings p = record {
  post_enabled = p.checkbox;
  post_root = trim p.root;
  post_done_dir = trim p.done_dir;
}

unfoldable pub save_watch_settings : WatchPage → WatchPage
save_watch_settings p = record p { save_disabled = true; watch_status = told (busy "Saving…") }

pub data WatchEvent : Type 0 where
  loaded : WatchData → WatchEvent
  not_loaded : WatchEvent
  switched : WatchEvent
  typed : CodeUnits → CodeUnits → WatchEvent
  save : WatchEvent
  stored : WatchData → WatchEvent
  not_stored : String → WatchEvent

unfoldable pub watch_step : WatchPage → WatchEvent → WatchPage
watch_step p (loaded d) = apply_watch_settings d p
watch_step p not_loaded = record p { watch_status = told (bad "Could not load settings.") }
watch_step p switched = click_switch p
watch_step p (typed r d) = record p { root = r; done_dir = d }
watch_step p save = save_watch_settings p
watch_step p (stored d) = let q = apply_watch_settings d p in record q { save_disabled = false }
watch_step p (not_stored m) = record p { watch_status = told (bad m); save_disabled = false }

unfoldable pub watch_run : WatchPage → List WatchEvent → WatchPage
watch_run p [] = p
watch_run p (v ∷ vs) = watch_run (watch_step p v) vs
