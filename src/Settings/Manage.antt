-- ===== src/Settings/Manage.antt =====
-- static/settings.js: the settings from the server to the inputs and back: loadSettings, renderAllSettings, edits, saves
-- and resets.
pub mod Laws
use telegram_hls_streamer_v.Base.{Bool, List, [], ◌∷◌, ◌++◌, Option, none, some, if◌then◌else◌, map}
use telegram_hls_streamer_v.Base.Decimal.{CodeUnits, codes}
use telegram_hls_streamer_v.Shared.Text.{same_text}
use telegram_hls_streamer_v.Settings.Fields.{
  Setting, Field, Row, render_field, key_of, PostedValue, collect_category_values,
}

-- An element of the page: the key in its id `sf_` + key, and the input.
pub record Element : Type 0 where
  pub element_key : CodeUnits
  pub input : Field

-- An entry of `categories`.
pub record CategorySettings : Type 0 where
  pub cat_key : CodeUnits
  pub settings : List Setting

abbrev pub all_settings : List CategorySettings → List Setting
all_settings [] = []
all_settings (c ∷ cs) = c.settings ++ all_settings cs

-- `_settingsData?.categories?.[catKey]`.
abbrev pub settings_in : CodeUnits → List CategorySettings → List Setting
settings_in key [] = []
settings_in key (c ∷ cs) = if same_text c.cat_key key then c.settings else settings_in key cs

-- `_settingsData`, the elements, the message where the settings could not be loaded, and the alerts.
pub record ManagedSettings : Type 0 where
  pub settings_data : List CategorySettings
  pub elements : List Element
  pub load_error : Option CodeUnits
  pub alerts : List CodeUnits

abbrev pub element_of : Setting → Element
element_of s = record { element_key = key_of s; input = render_field s }

unfoldable pub render_all_settings : List CategorySettings → List Element
render_all_settings cs = map element_of (all_settings cs)

-- A reply with the settings, or its error.
pub data SettingsReply : Type 0 where
  settings_ok : List CategorySettings → SettingsReply
  settings_error : CodeUnits → SettingsReply

unfoldable pub load_settings : SettingsReply → ManagedSettings → ManagedSettings
load_settings (settings_ok ss) p = record p {
  settings_data = ss;
  elements = render_all_settings ss;
}
load_settings (settings_error message) p = record p { load_error = some message }

-- resetSetting: the key that is asked to be reset, if the user confirms, and the reply.
unfoldable pub reset_setting : CodeUnits → Bool → Option CodeUnits
reset_setting key confirmed = if confirmed then some key else none

unfoldable pub reset_reply : SettingsReply → ManagedSettings → ManagedSettings
reset_reply (settings_ok ss) p = record p { settings_data = ss; elements = render_all_settings ss }
reset_reply (settings_error message) p = record p {
  alerts = p.alerts ++ (codes "Reset failed: " ++ message) ∷ [];
}

-- The reply to a save does not render the inputs anew.
unfoldable pub saved_reply : SettingsReply → ManagedSettings → ManagedSettings
saved_reply (settings_ok ss) p = record p { settings_data = ss }
saved_reply (settings_error message) p = p

-- An input takes another value.
unfoldable pub edit : CodeUnits → Field → List Element → List Element
edit key f [] = []
edit key f (e ∷ es) =
    let rest = edit key f es in
    if same_text e.element_key key then record e { input = f } ∷ es else e ∷ rest

-- `document.getElementById('sf_' + key)`.
unfoldable pub field_for : CodeUnits → List Element → Option Field
field_for key [] = none
field_for key (e ∷ es) = if same_text e.element_key key then some e.input else field_for key es

unfoldable pub rows_of : List Setting → List Element → List Row
rows_of [] es = []
rows_of (s ∷ ss) es = record { setting = s; field = field_for (key_of s) es } ∷ rows_of ss es

pub data ManageEvent : Type 0 where
  loaded : SettingsReply → ManageEvent
  edited : CodeUnits → Field → ManageEvent
  was_reset : SettingsReply → ManageEvent
  was_saved : SettingsReply → ManageEvent

unfoldable pub manage_step : ManagedSettings → ManageEvent → ManagedSettings
manage_step p (loaded reply) = load_settings reply p
manage_step p (edited key f) = record p { elements = edit key f p.elements }
manage_step p (was_reset reply) = reset_reply reply p
manage_step p (was_saved reply) = saved_reply reply p

unfoldable pub manage_run : ManagedSettings → List ManageEvent → ManagedSettings
manage_run p [] = p
manage_run p (e ∷ es) = manage_run (manage_step p e) es

-- collectCategoryValues, and `values` of saveSection for its categories, whose settings' keys all differ.
unfoldable pub posted_now : ManagedSettings → CodeUnits → List PostedValue
posted_now p cat = collect_category_values (rows_of (settings_in cat p.settings_data) p.elements)

unfoldable pub posted_values : List CodeUnits → ManagedSettings → List PostedValue
posted_values [] p = []
posted_values (cat ∷ cats) p = posted_now p cat ++ posted_values cats p
