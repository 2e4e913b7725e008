-- ===== src/Settings/Fields/Laws.antt =====
-- static/settings.js: what is not changed is posted as it was received.
use telegram_hls_streamer_v.Base.{ℕ, List, [], ◌∷◌, some, integer, ◌≡◌, refl, ap}
use telegram_hls_streamer_v.Shared.Text.{parse_int, join_with}
use telegram_hls_streamer_v.Shared.Text.Laws.{parse_int-show}
use telegram_hls_streamer_v.Settings.Units.{
  UnitKind, bytes, seconds, minutes, days, mb, plain, render_friendly_int,
}
use telegram_hls_streamer_v.Settings.Units.Laws.{render_friendly_int-hidden}
use telegram_hls_streamer_v.Settings.Tiers.{build_tiers_editor}
use telegram_hls_streamer_v.Settings.Labels.{unit_kind}
use telegram_hls_streamer_v.Settings.Fields.{
  Setting, bool_setting, int_setting, tiers_setting, text_setting, list_setting, friendly,
  int_field, render_field, value_of, Posted, bool_posted, int_posted, text_posted, collect_value,
  Row, PostedValue, key_of, collect_category_values,
}

-- The value that a setting has.
abbrev pub own_value : Setting → Posted
own_value (bool_setting key b) = bool_posted b
own_value (int_setting key n) = int_posted (integer n)
own_value (tiers_setting key t) = text_posted t
own_value (text_setting key t) = text_posted t
own_value (list_setting key ts) = text_posted (join_with 44 ts)

friendly-value :
    (kind : UnitKind) (n : ℕ)
    → parse_int (value_of (friendly (render_friendly_int kind n))) ≡ integer n
friendly-value kind n = rw ((render_friendly_int-hidden kind n).0) (parse_int-show n)

int_field-value : (kind : UnitKind) (n : ℕ) → parse_int (value_of (int_field kind n)) ≡ integer n
int_field-value plain n = parse_int-show n
int_field-value bytes n = friendly-value bytes n
int_field-value seconds n = friendly-value seconds n
int_field-value minutes n = friendly-value minutes n
int_field-value days n = friendly-value days n
int_field-value mb n = friendly-value mb n

collect_value-render_field : (s : Setting) → collect_value s (render_field s) ≡ own_value s
unfolding collect_value render_field build_tiers_editor
collect_value-render_field (bool_setting key b) = refl
collect_value-render_field (int_setting key n) = ap int_posted (int_field-value (unit_kind key) n)
collect_value-render_field (tiers_setting key t) = refl
collect_value-render_field (text_setting key t) = refl
collect_value-render_field (list_setting key ts) = refl

abbrev pub rendered : List Setting → List Row
rendered [] = []
rendered (s ∷ ss) = record { setting = s; field = some (render_field s) } ∷ rendered ss

abbrev pub own_values : List Setting → List PostedValue
own_values [] = []
own_values (s ∷ ss) = record { posted_key = key_of s; posted = own_value s } ∷ own_values ss

-- Saving a category that was not edited posts for every setting the value that was received, whatever unit
-- a number is shown in; a list is posted as its items joined by commas.
pub collect_category_values-rendered :
    (ss : List Setting) → collect_category_values (rendered ss) ≡ own_values ss
unfolding collect_category_values
collect_category_values-rendered [] = refl
collect_category_values-rendered (s ∷ ss) =
    rw (collect_value-render_field s, collect_category_values-rendered ss) refl
