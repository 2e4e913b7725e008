-- ===== src/Settings/Hints.antt =====
-- static/settings.js: the label and the hint that stand beside an input.
use telegram_hls_streamer_v.Base.{ℕ, [], ◌∷◌, ◌++◌, if◌then◌else◌}
use telegram_hls_streamer_v.Base.Decimal.{CodeUnits, codes, show}
use telegram_hls_streamer_v.Shared.Text.{is_empty}
use telegram_hls_streamer_v.Settings.Units.{UnitKind, plain}
use telegram_hls_streamer_v.Settings.Labels.{humanize_key, unit_kind, humanize_unit, format_display}

-- What the hint tells of a setting whose default is a whole number.
pub record Described : Type 0 where
  pub key : CodeUnits
  pub description : CodeUnits
  pub default_value : ℕ

-- The default as it is shown: with its unit, or the number and what formatDisplay adds.
abbrev shown_default : (ℕ → CodeUnits) → UnitKind → Described → CodeUnits
shown_default locale plain s =
    show s.default_value ++ after_space (format_display locale s.key s.default_value)
  where
    after_space : CodeUnits → CodeUnits
    after_space [] = []
    after_space (c ∷ cs) = 32 ∷ c ∷ cs
shown_default locale kind s = humanize_unit locale kind s.default_value

unfoldable pub hint_text : (ℕ → CodeUnits) → Described → CodeUnits
hint_text locale s =
    (if is_empty s.description then [] else s.description ++ 32 ∷ 183 ∷ 32 ∷ [])
    ++ codes "Default: "
    ++ shown_default locale (unit_kind s.key) s
    ++ codes " ("
    ++ s.key
    ++ codes ")"

-- renderFieldRow: the label, the hint and the title of the button to reset.
pub record FieldTexts : Type 0 where
  pub label : CodeUnits
  pub hint : CodeUnits
  pub reset_title : CodeUnits

unfoldable pub field_texts : (ℕ → CodeUnits) → Described → FieldTexts
field_texts locale s = record {
  label = humanize_key s.key;
  hint = hint_text locale s;
  reset_title = codes "Reset to default: " ++ show s.default_value;
}
