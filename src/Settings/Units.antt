-- ===== src/Settings/Units.antt =====
-- static/settings.js: the input of a number with a unit.
pub mod Laws
use telegram_hls_streamer_v.Base.{
  ℕ, ◌*◌, ◌/◌, ◌%◌, ◌&&◌, List, [], ◌∷◌, Option, none, some, if◌then◌else◌, leb, ◌==◌, String,
}

-- The kinds of unitKind that the page has a unit for; `plain` stands for any other.
pub data UnitKind : Type 0 where
  bytes : UnitKind
  seconds : UnitKind
  minutes : UnitKind
  days : UnitKind
  mb : UnitKind
  plain : UnitKind

pub record Choice : Type 0 where
  pub factor : ℕ
  pub label : String

abbrev pub choice : ℕ → String → Choice
choice f l = record { factor = f; label = l }

unfoldable pub unit_choices : UnitKind → List Choice
unit_choices bytes =
    choice 1 "B" ∷ choice 1024 "KB" ∷ choice 1048576 "MB" ∷ choice 1073741824 "GB" ∷ []
unit_choices seconds = choice 1 "sec" ∷ choice 60 "min" ∷ choice 3600 "hr" ∷ choice 86400 "day" ∷ []
unit_choices minutes = choice 1 "min" ∷ choice 60 "hr" ∷ choice 1440 "day" ∷ []
unit_choices days = choice 1 "day" ∷ []
unit_choices mb = choice 1 "MB" ∷ []
unit_choices plain = choice 1 "" ∷ []

-- `if (value >= factor && value % factor === 0) best = choice`.
unfoldable pub better_of : ℕ → Choice → Choice → Choice
better_of value best c = if leb c.factor value && (value % c.factor == 0) then c else best

-- The loop of bestUnit.
unfoldable pub best_from : Choice → List Choice → ℕ → Choice
best_from best [] value = best
best_from best (c ∷ cs) value = best_from (better_of value best c) cs value

abbrev pub first_choice : List Choice → Choice
first_choice [] = choice 1 ""
first_choice (c ∷ cs) = c

unfoldable pub best_unit : UnitKind → ℕ → Choice
unfolding best_from
best_unit kind value = best_from (first_choice (unit_choices kind)) (unit_choices kind) value

-- What the number input holds: nothing, a whole number, or what is no number at all.
pub data NumberText : Type 0 where
  blank : NumberText
  whole : ℕ → NumberText
  no_number : NumberText

-- The inputs of renderFriendlyInt: the number, the selected factor, and the hidden value that is saved, where
-- `none` is the empty text.
pub record FriendlyInt : Type 0 where
  pub number : NumberText
  pub select : ℕ
  pub hidden : Option ℕ

-- `Number('')` is 0.
unfoldable pub sync : FriendlyInt → FriendlyInt
sync w = record w {
  hidden = elim w.number [ blank ↦ some 0 | whole n ↦ some (n * w.select) | no_number ↦ none ];
}

-- renderFriendlyInt of a value that is a whole number, which ends with a `sync`.
unfoldable pub render_friendly_int : UnitKind → ℕ → FriendlyInt
render_friendly_int kind current = sync (record {
  number = whole (current / (best_unit kind current).factor);
  select = (best_unit kind current).factor;
  hidden = some current;
})

-- The listeners of the two inputs.
unfoldable pub input_number : NumberText → FriendlyInt → FriendlyInt
input_number t w = sync (record w { number = t })

unfoldable pub select_unit : ℕ → FriendlyInt → FriendlyInt
select_unit f w = sync (record w { select = f })
