-- ===== src/Settings/Units/Laws.antt =====
-- static/settings.js: showing a value in its best unit does not change it.
use telegram_hls_streamer_v.Base.{
  ℕ, ◌*◌, ◌/◌, ◌%◌, ◌&&◌, List, [], ◌∷◌, some, leb, ◌==◌, ◌≡◌, refl, arith, if_elim, ap,
}
use native.Mathlib.Nat.{div-add-mod'}
use telegram_hls_streamer_v.Settings.Units.{
  UnitKind, bytes, seconds, minutes, days, mb, plain, Choice, unit_choices, better_of, first_choice,
  best_from, best_unit, sync, render_friendly_int, input_number,
}

-- The value is a whole number of that unit.
abbrev IsWholeIn : ℕ → Choice → Type 0
IsWholeIn value c = value / c.factor * c.factor ≡ value

mod-whole : (value f : ℕ) → value % f ≡ 0 → value / f * f ≡ value
mod-whole value f h = omega (arith, div-add-mod' value f)

better_of-IsWholeIn :
    (value : ℕ) (best c : Choice) → IsWholeIn value best → IsWholeIn value (better_of value best c)
unfolding better_of
better_of-IsWholeIn value best c h =
    if_elim (IsWholeIn value) (leb c.factor value && (value % c.factor == 0)) _ _
      (λ t. mod-whole value c.factor (ground arith)) (λ f. h)

best_from-IsWholeIn :
    (best : Choice) (cs : List Choice) (value : ℕ)
    → IsWholeIn value best
    → IsWholeIn value (best_from best cs value)
unfolding best_from
best_from-IsWholeIn best [] value h = h
best_from-IsWholeIn best (c ∷ cs) value h =
    best_from-IsWholeIn (better_of value best c) cs value (better_of-IsWholeIn value best c h)

best_unit-IsWholeIn : (kind : UnitKind) (value : ℕ) → IsWholeIn value (best_unit kind value)
unfolding best_unit unit_choices
best_unit-IsWholeIn kind value =
    best_from-IsWholeIn (first_choice (unit_choices kind)) (unit_choices kind) value (by_one kind)
  where
    by_one : (k : UnitKind) → IsWholeIn value (first_choice (unit_choices k))
    by_one bytes = omega arith
    by_one seconds = omega arith
    by_one minutes = omega arith
    by_one days = omega arith
    by_one mb = omega arith
    by_one plain = omega arith

-- A value is shown as a whole number of a unit, and opening the input leaves the value that will be saved as it was.
-- Typing the shown number again changes nothing either.
pub render_friendly_int-hidden :
    (kind : UnitKind) (value : ℕ)
    → ((render_friendly_int kind value).hidden ≡ some value)
      × (input_number (render_friendly_int kind value).number (render_friendly_int kind value)
          ≡ render_friendly_int kind value)
unfolding render_friendly_int sync input_number
render_friendly_int-hidden kind value = (ap some (best_unit-IsWholeIn kind value), refl)
