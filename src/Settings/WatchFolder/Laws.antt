-- ===== src/Settings/WatchFolder/Laws.antt =====
-- static/settings.js: what is posted of the watched folder is what the switch shows.
use telegram_hls_streamer_v.Base.{List, [], ◌∷◌, ◌≡◌, refl}
use telegram_hls_streamer_v.Settings.WatchFolder.{
  WatchPage, apply_watch_settings, click_switch, posted_settings, save_watch_settings, WatchEvent,
  loaded, not_loaded, switched, typed, save, stored, not_stored, watch_step, watch_run,
}

watch_step-posted :
    (p : WatchPage) (v : WatchEvent)
    → p.checkbox ≡ p.switch_on
    → (watch_step p v).checkbox ≡ (watch_step p v).switch_on
unfolding watch_step apply_watch_settings click_switch save_watch_settings
watch_step-posted p (loaded d) h = refl
watch_step-posted p not_loaded h = h
watch_step-posted p switched h = refl
watch_step-posted p (typed r d) h = h
watch_step-posted p save h = h
watch_step-posted p (stored d) h = refl
watch_step-posted p (not_stored m) h = h

-- Whatever is clicked, typed, saved and received, and in whatever order, a save posts what the switch shows,
-- if the page starts with the checkbox and the switch in the same state.
pub watch_run-posted :
    (p : WatchPage) (vs : List WatchEvent)
    → p.checkbox ≡ p.switch_on
    → (posted_settings (watch_run p vs)).post_enabled ≡ (watch_run p vs).switch_on
unfolding watch_run posted_settings
watch_run-posted p [] h = h
watch_run-posted p (v ∷ vs) h = watch_run-posted (watch_step p v) vs (watch_step-posted p v h)
