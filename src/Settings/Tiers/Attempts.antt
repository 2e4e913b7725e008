-- ===== src/Settings/Tiers/Attempts.antt =====
-- static/settings.js: what is refused in the dialog of a tier leaves no trace.
use telegram_hls_streamer_v.Base.{
  ℕ, suc, true, false, integer, arith, List, [], ◌∷◌, some, ◌≡◌, refl, ◌≢◌, All, ap, sym, subst,
  ◌⊎◌, inl, inr,
}
use telegram_hls_streamer_v.Base.Decimal.{CodeUnits}
use telegram_hls_streamer_v.Shared.Text.{trim, parse_int, is_empty}
use telegram_hls_streamer_v.Settings.Tiers.{
  is_positive, Modal, Editor, set_tier_data, close_tier_modal, type_tier, is_accepted, save_modal,
  save_tier_modal, TierEvent, type_in, save_it, tier_step, tier_run,
}

is_empty-ne : (t : CodeUnits) → t ≢ [] → is_empty t ≡ false
is_empty-ne [] h = absurd (h refl)
is_empty-ne (c ∷ cs) h = refl

-- What is typed for a tier: a height that is no positive number or a bitrate that is blank, or neither.
abbrev pub IsRefused : CodeUnits × CodeUnits → Type 0
IsRefused (h, b) = (is_positive (parse_int h) ≡ false) ⊎ (trim b ≡ [])

abbrev pub attempts : List (CodeUnits × CodeUnits) → List TierEvent → List TierEvent
attempts [] rest = rest
attempts ((h, b) ∷ more) rest = type_in h b ∷ save_it ∷ attempts more rest

not_accepted :
    (h b : CodeUnits) (m : Modal)
    → IsRefused (h, b)
    → is_accepted (record m { height_input = h; bitrate_input = b }) ≡ false
unfolding is_accepted
not_accepted h b m (inl low) = rw low refl
not_accepted h b m (inr blank) = ground (arith, ap is_empty blank)

abbrev opened : Editor → Modal → Editor
opened e m = record e { modal = some m }

refused_once :
    (e : Editor) (m : Modal) (h b : CodeUnits)
    → IsRefused (h, b)
    → tier_step (tier_step (opened e m) (type_in h b)) save_it
      ≡ opened e (record m { height_input = h; bitrate_input = b; error_shown = true })
unfolding tier_step type_tier save_tier_modal save_modal
refused_once e m h b bad = rw (not_accepted h b m bad) refl

-- Only the index of the dialog matters to what is typed next.
retyped :
    (e : Editor) (m k : Modal) (h b : CodeUnits) (n : ℕ)
    → m.index ≡ k.index
    → parse_int h ≡ integer (suc n)
    → trim b ≢ []
    → tier_run (opened e m) (type_in h b ∷ save_it ∷ [])
      ≡ tier_run (opened e k) (type_in h b ∷ save_it ∷ [])
unfolding tier_run tier_step type_tier save_tier_modal save_modal is_accepted close_tier_modal
    set_tier_data
retyped e m k h b n same good filled =
    let whole : is_empty (trim b) ≡ false = is_empty-ne (trim b) filled in
    rw (good, whole, same) refl

after_attempts :
    (e : Editor) (m k : Modal) (bad : List (CodeUnits × CodeUnits)) (h b : CodeUnits) (n : ℕ)
    → m.index ≡ k.index
    → All IsRefused bad
    → parse_int h ≡ integer (suc n)
    → trim b ≢ []
    → tier_run (opened e m) (attempts bad (type_in h b ∷ save_it ∷ []))
      ≡ tier_run (opened e k) (type_in h b ∷ save_it ∷ [])
unfolding tier_run
after_attempts e m k [] h b n same bads good filled = retyped e m k h b n same good filled
after_attempts e m k ((g, c) ∷ more) h b n same (low, lows) good filled =
    let m' : Modal = record m { height_input = g; bitrate_input = c; error_shown = true } in
    subst
      (λ (x : Editor).
        tier_run x (attempts more (type_in h b ∷ save_it ∷ []))
        ≡ tier_run (opened e k) (type_in h b ∷ save_it ∷ []))
      (sym (refused_once e m g c low)) (after_attempts e m' k more h b n same lows good filled)

-- Attempts to save a tier that are refused, for a height that is no positive number or a blank bitrate, leave no trace: when a
-- height and a bitrate are accepted at last, the editor is as if these had been typed into the dialog at once,
-- whether it was opened for a new tier or for one of the list.
pub tier_run-attempts :
    (e : Editor) (m : Modal) (bad : List (CodeUnits × CodeUnits)) (h b : CodeUnits) (n : ℕ)
    → All IsRefused bad
    → parse_int h ≡ integer (suc n)
    → trim b ≢ []
    → tier_run (record e { modal = some m }) (attempts bad (type_in h b ∷ save_it ∷ []))
      ≡ tier_run (record e { modal = some m }) (type_in h b ∷ save_it ∷ [])
tier_run-attempts e m bad h b n bads good filled =
    after_attempts e m m bad h b n refl bads good filled
