-- ===== src/Settings/Manage/Laws.antt =====
-- static/settings.js: what the button of a category posts.
use telegram_hls_streamer_v.Base.{
  false, List, [], ◌∷◌, ◌++◌, some, All, ◌≡◌, refl, ap, ◌∙◌, Bool-cases, if_elim, inl, inr, map,
}
use telegram_hls_streamer_v.Base.Decimal.{CodeUnits}
use telegram_hls_streamer_v.Shared.Text.{same_text}
use telegram_hls_streamer_v.Shared.Text.Laws.{same_text_self, same_text-eq}
use telegram_hls_streamer_v.Settings.Fields.{
  Setting, render_field, Field, key_of, collect_category_values,
}
use telegram_hls_streamer_v.Settings.Fields.Laws.{
  rendered, own_values, collect_category_values-rendered,
}
use telegram_hls_streamer_v.Settings.Manage.{
  Element, CategorySettings, all_settings, settings_in, ManagedSettings, element_of,
  render_all_settings, settings_ok, settings_error, load_settings, reset_reply, saved_reply, edit,
  field_for, rows_of, ManageEvent, loaded, edited, was_reset, was_saved, manage_step, manage_run,
  posted_now,
}

-- Keys that differ, as they do in the server's registry.
abbrev pub IsKeyed : List Setting → Type 0
IsKeyed [] = Unit
IsKeyed (s ∷ ss) = All (λ t. same_text (key_of s) (key_of t) ≡ false) ss × IsKeyed ss

-- The element of the setting shows it.
abbrev IsFound : List Element → Setting → Type 0
IsFound es s = field_for (key_of s) es ≡ some (render_field s)

IsFound-behind :
    (s : Setting) (es : List Element) (ss : List Setting)
    → All (λ t. same_text (key_of s) (key_of t) ≡ false) ss
    → All (IsFound es) ss
    → All (IsFound (element_of s ∷ es)) ss
unfolding field_for
IsFound-behind s es [] h k = tt
IsFound-behind s es (t ∷ ts) (h, hs) (k, ks) = (rw h k, IsFound-behind s es ts hs ks)

all-IsFound : (ss : List Setting) → IsKeyed ss → All (IsFound (map element_of ss)) ss
unfolding field_for
all-IsFound [] k = tt
all-IsFound (s ∷ ss) (h, k) = (
  rw (same_text_self (key_of s)) refl,
  IsFound-behind s (map element_of ss) ss h (all-IsFound ss k),
)

IsFound-left :
    (es : List Element) (ss ts : List Setting) → All (IsFound es) (ss ++ ts) → All (IsFound es) ss
IsFound-left es [] ts h = tt
IsFound-left es (s ∷ ss) ts (h, hs) = (h, IsFound-left es ss ts hs)

IsFound-right :
    (es : List Element) (ss ts : List Setting) → All (IsFound es) (ss ++ ts) → All (IsFound es) ts
IsFound-right es [] ts h = h
IsFound-right es (s ∷ ss) ts (h, hs) = IsFound-right es ss ts hs

IsFound-in :
    (cat : CodeUnits) (es : List Element) (cs : List CategorySettings)
    → All (IsFound es) (all_settings cs)
    → All (IsFound es) (settings_in cat cs)
IsFound-in cat es [] h = tt
IsFound-in cat es (c ∷ cs) h =
    if_elim (All (IsFound es)) (same_text c.cat_key cat) _ _
      (λ t. IsFound-left es c.settings (all_settings cs) h)
      (λ f. IsFound-in cat es cs (IsFound-right es c.settings (all_settings cs) h))

rows_of-found :
    (es : List Element) (ss : List Setting) → All (IsFound es) ss → rows_of ss es ≡ rendered ss
unfolding rows_of
rows_of-found es [] h = refl
rows_of-found es (s ∷ ss) (h, hs) = rw (h, rows_of-found es ss hs) refl

posted_now-rendered :
    (p : ManagedSettings) (cs : List CategorySettings) (cat : CodeUnits)
    → IsKeyed (all_settings cs)
    → posted_now (record p { settings_data = cs; elements = render_all_settings cs }) cat
      ≡ own_values (settings_in cat cs)
unfolding posted_now render_all_settings
posted_now-rendered p cs cat k =
    let es = map element_of (all_settings cs) in
    ap collect_category_values (
      rows_of-found es (settings_in cat cs)
        (IsFound-in cat es cs (all-IsFound (all_settings cs) k)))
    ∙ collect_category_values-rendered (settings_in cat cs)

field_for-edit :
    (key other : CodeUnits) (f : Field) (es : List Element)
    → same_text other key ≡ false
    → field_for other (edit key f es) ≡ field_for other es
unfolding field_for edit
field_for-edit key other f [] h = refl
field_for-edit key other f (e ∷ es) h = elim (Bool-cases (same_text e.element_key key)) [
  | inl t ↦ elim (Bool-cases (same_text e.element_key other)) [
    | inl u ↦ absurd (
        cc (
          h,
          same_text_self other,
          same_text-eq e.element_key key t,
          same_text-eq e.element_key other u,
        ))
    | inr u ↦ rw (t, u) refl
  ]
  | inr t ↦ rw (t, field_for-edit key other f es h) refl
]

rows_of-edit :
    (key : CodeUnits) (f : Field) (es : List Element) (ss : List Setting)
    → All (λ s. same_text (key_of s) key ≡ false) ss
    → rows_of ss (edit key f es) ≡ rows_of ss es
unfolding rows_of
rows_of-edit key f es [] h = refl
rows_of-edit key f es (s ∷ ss) (h, hs) =
    rw (field_for-edit key (key_of s) f es h, rows_of-edit key f es ss hs) refl

-- An edit of a setting that is not of the list, or a reply that is an error.
abbrev pub IsElsewhere : List Setting → ManageEvent → Type 0
IsElsewhere ss (edited key f) = All (λ s. same_text (key_of s) key ≡ false) ss
IsElsewhere ss (loaded (settings_error m)) = Unit
IsElsewhere ss (was_reset (settings_error m)) = Unit
IsElsewhere ss (was_saved (settings_error m)) = Unit
IsElsewhere ss _ = ⊥

step-elsewhere :
    (p : ManagedSettings) (cat : CodeUnits) (e : ManageEvent)
    → IsElsewhere (settings_in cat p.settings_data) e
    → (posted_now (manage_step p e) cat ≡ posted_now p cat)
      × ((manage_step p e).settings_data ≡ p.settings_data)
unfolding posted_now manage_step load_settings reset_reply saved_reply
step-elsewhere p cat (edited key f) h =
    (ap collect_category_values (rows_of-edit key f p.elements _ h), refl)
step-elsewhere p cat (loaded (settings_error m)) h = (refl, refl)
step-elsewhere p cat (was_reset (settings_error m)) h = (refl, refl)
step-elsewhere p cat (was_saved (settings_error m)) h = (refl, refl)
step-elsewhere p cat (loaded (settings_ok cs)) h = absurd h
step-elsewhere p cat (was_reset (settings_ok cs)) h = absurd h
step-elsewhere p cat (was_saved (settings_ok cs)) h = absurd h

run-elsewhere :
    (p : ManagedSettings) (cs : List CategorySettings) (cat : CodeUnits) (es : List ManageEvent)
    → p.settings_data ≡ cs
    → All (IsElsewhere (settings_in cat cs)) es
    → posted_now (manage_run p es) cat ≡ posted_now p cat
unfolding manage_run
run-elsewhere p cs cat [] d h = refl
run-elsewhere p cs cat (e ∷ es) d (h, hs) =
    let here : IsElsewhere (settings_in cat p.settings_data) e = rw d h in
    let (same, kept) = step-elsewhere p cat e here in
    run-elsewhere (manage_step p e) cs cat es (kept ∙ d) hs ∙ same

-- The button of a category posts its settings and no other, each with the value the server gave, whatever is typed into the settings of
-- other categories and whatever saves and resets are refused meanwhile; the keys of all settings differ.
pub posted_now-elsewhere :
    (p : ManagedSettings) (cs : List CategorySettings) (cat : CodeUnits) (es : List ManageEvent)
    → IsKeyed (all_settings cs)
    → All (IsElsewhere (settings_in cat cs)) es
    → posted_now (manage_run p (loaded (settings_ok cs) ∷ es)) cat ≡ own_values (settings_in cat cs)
unfolding manage_run manage_step load_settings
posted_now-elsewhere p cs cat es k h =
    run-elsewhere (record p { settings_data = cs; elements = render_all_settings cs }) cs cat es
      refl h
    ∙ posted_now-rendered p cs cat k
