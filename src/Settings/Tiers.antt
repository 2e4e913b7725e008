-- ===== src/Settings/Tiers.antt =====
-- static/settings.js: the editor of the tiers of a setting, and the text in which they are saved.
pub mod Laws
pub mod Attempts
use telegram_hls_streamer_v.Base.{
  ℕ, zero, suc, Bool, true, false, not, ◌||◌, ◌&&◌, List, [], ◌∷◌, ◌++◌, Option, none, some,
  if◌then◌else◌, filter, map, get_elem?, Numeric, integer, negative, not_integer,
}
use telegram_hls_streamer_v.Base.Decimal.{CodeUnits, codes, show}
use telegram_hls_streamer_v.Shared.Text.{trim, parse_int, is_empty, split_on, join_with}

-- A tier; NaN, which JSON turns into null, is `not_integer`.
pub record Tier : Type 0 where
  pub height : Numeric
  pub bitrate : CodeUnits

abbrev pub is_positive : Numeric → Bool
is_positive (integer (suc n)) = true
is_positive _ = false

-- The two parts of `pair.trim().split(':')`, of which the second may be missing.
abbrev pub tier_of : List CodeUnits → Tier
tier_of [] = record { height = integer 0; bitrate = [] }
tier_of (h ∷ []) = record { height = if is_empty h then integer 0 else parse_int h; bitrate = [] }
tier_of (h ∷ b ∷ bs) = record {
  height = if is_empty h then integer 0 else parse_int h;
  bitrate = trim b;
}

unfoldable pub parse_pair : CodeUnits → Tier
parse_pair pair = tier_of (split_on 58 (trim pair))

abbrev pub is_some_tier : Tier → Bool
is_some_tier t = is_positive t.height || not (is_empty t.bitrate)

unfoldable pub parse_tiers : CodeUnits → List Tier
parse_tiers [] = []
parse_tiers (c ∷ cs) = filter is_some_tier (map parse_pair (split_on 44 (c ∷ cs)))

abbrev pub is_whole_tier : Tier → Bool
is_whole_tier t = is_positive t.height && not (is_empty (trim t.bitrate))

-- `parseInt(t.height, 10)` as a text: the height is a number.
abbrev pub show_height : Numeric → CodeUnits
show_height (integer n) = show n
show_height (negative n) = 45 ∷ show (suc n)
show_height not_integer = codes "NaN"

unfoldable pub serialize_tier : Tier → CodeUnits
serialize_tier t = show_height t.height ++ 58 ∷ trim t.bitrate

unfoldable pub serialize_tiers : List Tier → CodeUnits
serialize_tiers tiers = join_with 44 (map serialize_tier (filter is_whole_tier tiers))

-- The editor: its tiers, the hidden input that is saved, and the dialog: none, or for a new tier or for the one
-- at an index, with its inputs and the message shown there.
pub record Modal : Type 0 where
  pub index : Option ℕ
  pub height_input : CodeUnits
  pub bitrate_input : CodeUnits
  pub error_shown : Bool

pub record Editor : Type 0 where
  pub tiers : List Tier
  pub hidden : CodeUnits
  pub modal : Option Modal

unfoldable pub build_tiers_editor : CodeUnits → Editor
build_tiers_editor value = record { tiers = parse_tiers value; hidden = value; modal = none }

unfoldable pub set_tier_data : List Tier → Editor → Editor
set_tier_data tiers e = record e { tiers = tiers; hidden = serialize_tiers tiers }

-- `tier?.height || ''`.
abbrev pub height_text : Numeric → CodeUnits
height_text (integer zero) = []
height_text (integer (suc n)) = show (suc n)
height_text (negative n) = 45 ∷ show (suc n)
height_text not_integer = []

abbrev pub modal_for : Option ℕ → Option Tier → Modal
modal_for i none = record { index = i; height_input = []; bitrate_input = []; error_shown = false }
modal_for i (some t) = record {
  index = i;
  height_input = height_text t.height;
  bitrate_input = t.bitrate;
  error_shown = false;
}

unfoldable pub open_tier_modal : Option ℕ → Editor → Editor
open_tier_modal none e = record e { modal = some (modal_for none none) }
open_tier_modal (some i) e = record e { modal = some (modal_for (some i) (get_elem? e.tiers i)) }

unfoldable pub close_tier_modal : Editor → Editor
close_tier_modal e = record e { modal = none }

-- Typing into the inputs.
unfoldable pub type_tier : CodeUnits → CodeUnits → Editor → Editor
type_tier h b e = elim e.modal [
  | none ↦ e
  | some m ↦ record e { modal = some (record m { height_input = h; bitrate_input = b }) }
]

-- `tiers[i] = t`: past the end the array grows. A hole before it stands as a blank tier, which like the hole is
-- not written into the text that is saved.
abbrev pub put_at : List Tier → ℕ → Tier → List Tier
put_at [] zero t = t ∷ []
put_at [] (suc i) t = record { height = integer 0; bitrate = [] } ∷ put_at [] i t
put_at (x ∷ xs) zero t = t ∷ xs
put_at (x ∷ xs) (suc i) t = x ∷ put_at xs i t

unfoldable pub store_tier : Option ℕ → Tier → List Tier → List Tier
store_tier none t tiers = tiers ++ t ∷ []
store_tier (some i) t tiers = put_at tiers i t

-- The guard of saveTierModal.
unfoldable pub is_accepted : Modal → Bool
is_accepted m = is_positive (parse_int m.height_input) && not (is_empty (trim m.bitrate_input))

abbrev pub typed_tier : Modal → Tier
typed_tier m = record { height = parse_int m.height_input; bitrate = trim m.bitrate_input }

unfoldable pub save_modal : Modal → Editor → Editor
save_modal m e =
    if is_accepted m
    then close_tier_modal (set_tier_data (store_tier m.index (typed_tier m) e.tiers) e)
    else record e { modal = some (record m { error_shown = true }) }

unfoldable pub save_tier_modal : Editor → Editor
save_tier_modal e = elim e.modal [ none ↦ e | some m ↦ save_modal m e ]

-- `splice(index, 1)`.
unfoldable pub remove_at : List Tier → ℕ → List Tier
remove_at [] i = []
remove_at (t ∷ ts) zero = ts
remove_at (t ∷ ts) (suc i) = t ∷ remove_at ts i

unfoldable pub delete_tier : ℕ → Editor → Editor
delete_tier i e = set_tier_data (remove_at e.tiers i) e

pub data TierEvent : Type 0 where
  open_new : TierEvent
  open_at : ℕ → TierEvent
  type_in : CodeUnits → CodeUnits → TierEvent
  save_it : TierEvent
  close_it : TierEvent
  delete_at : ℕ → TierEvent

unfoldable pub tier_step : Editor → TierEvent → Editor
tier_step e open_new = open_tier_modal none e
tier_step e (open_at i) = open_tier_modal (some i) e
tier_step e (type_in h b) = type_tier h b e
tier_step e save_it = save_tier_modal e
tier_step e close_it = close_tier_modal e
tier_step e (delete_at i) = delete_tier i e

unfoldable pub tier_run : Editor → List TierEvent → Editor
tier_run e [] = e
tier_run e (v ∷ vs) = tier_run (tier_step e v) vs
