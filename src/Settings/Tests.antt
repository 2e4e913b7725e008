-- ===== src/Settings/Tests.antt =====
-- The theorems on the page of settings, at concrete inputs.
use telegram_hls_streamer_v.Settings.Manage.{
  CategorySettings, ManagedSettings, settings_ok, settings_error, loaded, edited, was_reset,
  manage_run, posted_now,
}
use telegram_hls_streamer_v.Settings.Manage.Laws.{posted_now-elsewhere}
use telegram_hls_streamer_v.Settings.Fields.{switch}
use telegram_hls_streamer_v.Base.{none}
use telegram_hls_streamer_v.Base.{◌≡◌, refl, true, false, List, [], ◌∷◌, integer}
use telegram_hls_streamer_v.Base.{some, inl, inr}
use telegram_hls_streamer_v.Shared.Text.{trim, parse_int}
use telegram_hls_streamer_v.Base.Decimal.{CodeUnits, codes}
use telegram_hls_streamer_v.Settings.Tiers.{
  Tier, Modal, parse_tiers, serialize_tiers, build_tiers_editor, open_new, type_in, save_it,
  delete_at, tier_run,
}
use telegram_hls_streamer_v.Settings.Tiers.Attempts.{attempts, tier_run-attempts}
use telegram_hls_streamer_v.Settings.Tiers.Laws.{
  IsTier, parse_tiers-serialize_tiers, IsSynced, tier_run-build,
}
use telegram_hls_streamer_v.Settings.Fields.{
  Setting, bool_setting, int_setting, list_setting, collect_category_values,
}
use telegram_hls_streamer_v.Settings.Fields.Laws.{
  rendered, own_values, collect_category_values-rendered,
}

abbrev full_hd : Tier
full_hd = record { height = integer 1080; bitrate = codes "5M" }

full_hd-IsTier : IsTier full_hd
full_hd-IsTier = record {
  positive = refl;
  plain = ((refl, refl, refl), ((refl, refl, refl), tt));
  filled = λ h. cc h;
}

parse_tiers-serialize_tiers_example : parse_tiers (serialize_tiers (full_hd ∷ [])) ≡ full_hd ∷ []
parse_tiers-serialize_tiers_example =
    parse_tiers-serialize_tiers (full_hd ∷ []) (full_hd-IsTier, tt)

abbrev tier_dialog : Modal
tier_dialog = record { index = none; height_input = []; bitrate_input = []; error_shown = false }

abbrev refused_tiers : List (CodeUnits × CodeUnits)
refused_tiers = (codes "0", codes "5M") ∷ (codes "1080", codes "  ") ∷ []

tier_run-attempts_example :
    tier_run
      (record (build_tiers_editor (codes "720:3M")) { modal = some tier_dialog })
      (attempts refused_tiers (type_in (codes "1080") (codes "5M") ∷ save_it ∷ []))
    ≡ tier_run
        (record (build_tiers_editor (codes "720:3M")) { modal = some tier_dialog })
        (type_in (codes "1080") (codes "5M") ∷ save_it ∷ [])
unfolding parse_int trim
tier_run-attempts_example =
    tier_run-attempts (build_tiers_editor (codes "720:3M")) tier_dialog refused_tiers (codes "1080")
      (codes "5M") 1079 (inl refl, (inr refl, tt)) refl (cc)

tier_run-build_example : IsSynced (codes "720:3M") (
    tier_run
      (build_tiers_editor (codes "720:3M"))
      (open_new ∷ type_in (codes "1080") (codes "5M") ∷ save_it ∷ delete_at 0 ∷ []))
tier_run-build_example =
    tier_run-build (codes "720:3M")
      (open_new ∷ type_in (codes "1080") (codes "5M") ∷ save_it ∷ delete_at 0 ∷ [])

abbrev some_settings : List Setting
some_settings =
    bool_setting (codes "FORCE_HTTPS") true
    ∷ int_setting (codes "MAX_UPLOAD_SIZE") 1073741824
    ∷ list_setting (codes "CORS_ALLOWED_ORIGINS") (codes "a" ∷ codes "b" ∷ [])
    ∷ []

collect_category_values-rendered_example :
    collect_category_values (rendered some_settings) ≡ own_values some_settings
collect_category_values-rendered_example = collect_category_values-rendered some_settings

abbrev no_settings : ManagedSettings
no_settings = record { settings_data = []; elements = []; load_error = none; alerts = [] }

abbrev two_categories : List CategorySettings
two_categories =
    record { cat_key = codes "server"; settings = some_settings }
    ∷ record { cat_key = codes "hls"; settings = int_setting (codes "HLS_TIME") 6 ∷ [] }
    ∷ []

posted_now-elsewhere_example :
    posted_now
      (manage_run no_settings (
        loaded (settings_ok two_categories)
        ∷ edited (codes "FORCE_HTTPS") (switch false)
        ∷ was_reset (settings_error (codes "no"))
        ∷ []))
      (codes "hls")
    ≡ own_values (int_setting (codes "HLS_TIME") 6 ∷ [])
posted_now-elsewhere_example =
    posted_now-elsewhere no_settings two_categories (codes "hls")
      (edited (codes "FORCE_HTTPS") (switch false) ∷ was_reset (settings_error (codes "no")) ∷ [])
      ((refl, (refl, (refl, tt))), ((refl, (refl, tt)), ((refl, tt), (tt, tt))))
      ((refl, tt), (tt, tt))
