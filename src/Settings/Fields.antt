-- ===== src/Settings/Fields.antt =====
-- static/settings.js: the inputs of the settings, and the values that a save posts. The server's values
-- are of the type that it gives.
pub mod Laws
use telegram_hls_streamer_v.Base.{
  ℕ, Bool, true, false, not, List, [], ◌∷◌, Option, none, some, Numeric, String,
}
use telegram_hls_streamer_v.Base.Decimal.{CodeUnits, show}
use telegram_hls_streamer_v.Shared.Text.{parse_int, join_with}
use telegram_hls_streamer_v.Settings.Units.{
  UnitKind, bytes, seconds, minutes, days, mb, plain, FriendlyInt, render_friendly_int,
}
use telegram_hls_streamer_v.Settings.Tiers.{Editor, build_tiers_editor}
use telegram_hls_streamer_v.Settings.Labels.{unit_kind}

-- A setting, by its type and the form of its value.
pub data Setting : Type 0 where
  bool_setting : CodeUnits → Bool → Setting
  int_setting : CodeUnits → ℕ → Setting
  tiers_setting : CodeUnits → CodeUnits → Setting
  text_setting : CodeUnits → CodeUnits → Setting
  list_setting : CodeUnits → List CodeUnits → Setting

-- The element `sf_` + key.
pub data Field : Type 0 where
  switch : Bool → Field
  friendly : FriendlyInt → Field
  tiers_editor : Editor → Field
  input : CodeUnits → Field

abbrev pub int_field : UnitKind → ℕ → Field
int_field plain n = input (show n)
int_field bytes n = friendly (render_friendly_int bytes n)
int_field seconds n = friendly (render_friendly_int seconds n)
int_field minutes n = friendly (render_friendly_int minutes n)
int_field days n = friendly (render_friendly_int days n)
int_field mb n = friendly (render_friendly_int mb n)

unfoldable pub render_field : Setting → Field
render_field (bool_setting key b) = switch b
render_field (int_setting key n) = int_field (unit_kind key) n
render_field (tiers_setting key t) = tiers_editor (build_tiers_editor t)
render_field (text_setting key t) = input t
render_field (list_setting key ts) = input (join_with 44 ts)

-- A click on a switch.
unfoldable pub toggle : Field → Field
toggle (switch b) = switch (not b)
toggle f = f

-- `el.value`.
abbrev pub value_text : Option ℕ → CodeUnits
value_text none = []
value_text (some n) = show n

abbrev pub value_of : Field → CodeUnits
value_of (switch b) = []
value_of (friendly w) = value_text w.hidden
value_of (tiers_editor e) = e.hidden
value_of (input t) = t

-- What is posted for a setting.
pub data Posted : Type 0 where
  bool_posted : Bool → Posted
  int_posted : Numeric → Posted
  text_posted : CodeUnits → Posted

abbrev pub is_checked : Field → Bool
is_checked (switch b) = b
is_checked _ = false

unfoldable pub collect_value : Setting → Field → Posted
collect_value (bool_setting key b) f = bool_posted (is_checked f)
collect_value (int_setting key n) f = int_posted (parse_int (value_of f))
collect_value _ f = text_posted (value_of f)

abbrev pub key_of : Setting → CodeUnits
key_of (bool_setting key b) = key
key_of (int_setting key n) = key
key_of (tiers_setting key t) = key
key_of (text_setting key t) = key
key_of (list_setting key ts) = key

pub record Row : Type 0 where
  pub setting : Setting
  pub field : Option Field

pub record PostedValue : Type 0 where
  pub posted_key : CodeUnits
  pub posted : Posted

-- The values of a category, whose keys differ; a setting without an element is passed over.
unfoldable pub collect_category_values : List Row → List PostedValue
collect_category_values [] = []
collect_category_values (r ∷ rs) =
    let rest = collect_category_values rs in
    elim r.field [
      | none ↦ rest
      | some f ↦ record { posted_key = key_of r.setting; posted = collect_value r.setting f } ∷ rest
    ]

-- The status beside a button.
pub data Status : Type 0 where
  blank : Status
  busy : String → Status
  good : String → Status
  bad : String → Status

-- A section: its settings as last received, the button and the status.
pub record Section : Type 0 where
  pub received : List Setting
  pub button_disabled : Bool
  pub status : Status

pub data SaveReply : Type 0 where
  saved : List Setting → SaveReply
  refused : String → SaveReply

unfoldable pub save_section : Section → Section
save_section s = record s { button_disabled = true; status = busy "Saving…" }

unfoldable pub section_reply : SaveReply → Section → Section
section_reply (saved ss) s = record s {
  received = ss;
  status = good "Saved.";
  button_disabled = false;
}
section_reply (refused message) s = record s { status = bad message; button_disabled = false }
