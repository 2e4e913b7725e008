-- ===== src/Shared/Tests.antt =====
-- The theorems on what every page loads, at concrete inputs.
use telegram_hls_streamer_v.Base.{◌≡◌, [], ◌∷◌, true, false}
use telegram_hls_streamer_v.Base.Decimal.{codes}
use telegram_hls_streamer_v.Shared.Slug.{
  lower_unit, to_lower_case, dash_runs, single_dashes, drop_first_dash, drop_last_dash, slugify,
}
use telegram_hls_streamer_v.Shared.Slug.Laws.{slugify-slugify}
use telegram_hls_streamer_v.Shared.Panel.{closed_panel, toggled, clicked, panel_run}
use telegram_hls_streamer_v.Shared.Panel.Laws.{IsSound, panel_run-closed_panel}

slugify-slugify_example : slugify (slugify (codes "Dr. Who?")) ≡ codes "dr-who"
unfolding slugify to_lower_case lower_unit dash_runs single_dashes drop_first_dash drop_last_dash
slugify-slugify_example = slugify-slugify (codes "Dr. Who?")

panel_run-closed_panel_example : IsSound (
    panel_run closed_panel
      (toggled ∷ clicked true false ∷ toggled ∷ toggled ∷ clicked false false ∷ []))
panel_run-closed_panel_example =
    panel_run-closed_panel
      (toggled ∷ clicked true false ∷ toggled ∷ toggled ∷ clicked false false ∷ [])
