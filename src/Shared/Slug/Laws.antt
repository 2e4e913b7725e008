-- ===== src/Shared/Slug/Laws.antt =====
-- static/shared.js: what slugs are made of, and that a slug is its own slug.
use telegram_hls_streamer_v.Base.{
  ℕ, Bool, true, false, [], ◌∷◌, if◌then◌else◌, ◌==◌, ◌≡◌, refl, ◌⊎◌, inl, inr, if_elim, arith, ap,
  ◌∙◌,
}
use telegram_hls_streamer_v.Base.Decimal.{CodeUnits}
use telegram_hls_streamer_v.Shared.Slug.{
  is_word, lower_unit, to_lower_case, dash_runs, single_dashes, drop_first_dash, drop_last_dash,
  slugify, slugify_short,
}

-- Words of `[a-z0-9]` with a dash between each two; the flag says that a word has begun.
abbrev pub IsSlugged : Bool → CodeUnits → Type 0
IsSlugged true [] = Unit
IsSlugged false [] = ⊥
IsSlugged true (c ∷ cs) = ((is_word c ≡ true) × IsSlugged true cs) ⊎ ((c ≡ 45) × IsSlugged false cs)
IsSlugged false (c ∷ cs) = (is_word c ≡ true) × IsSlugged true cs

abbrev pub IsSlug : CodeUnits → Type 0
IsSlug s = (s ≡ []) ⊎ IsSlugged false s

-- Words and single dashes; the flag says that a dash may follow.
abbrev IsDashed : Bool → CodeUnits → Type 0
IsDashed b [] = Unit
IsDashed true (c ∷ cs) = ((is_word c ≡ true) × IsDashed true cs) ⊎ ((c ≡ 45) × IsDashed false cs)
IsDashed false (c ∷ cs) = (is_word c ≡ true) × IsDashed true cs

dash_runs-IsDashed :
    (cs : CodeUnits) → IsDashed true (dash_runs false cs) × IsDashed false (dash_runs true cs)
unfolding dash_runs
dash_runs-IsDashed [] = (tt, tt)
dash_runs-IsDashed (c ∷ cs) =
    let rest = dash_runs-IsDashed cs in
    (
      if_elim (IsDashed true) (is_word c) _ _ (λ w. inl (w, rest.0)) (λ w. inr (refl, rest.1)),
      if_elim (IsDashed false) (is_word c) _ _ (λ w. (w, rest.0)) (λ w. rest.1),
    )

single_dashes-IsDashed :
    (cs : CodeUnits)
    → (IsDashed true cs → single_dashes false cs ≡ cs)
      × (IsDashed false cs → single_dashes true cs ≡ cs)
unfolding single_dashes
single_dashes-IsDashed [] = (λ h. refl, λ h. refl)
single_dashes-IsDashed (c ∷ cs) =
    let rest = single_dashes-IsDashed cs in (λ h. cases h rest.0 rest.1, λ h. grind (arith, rest.0))
  where
    cases :
        IsDashed true (c ∷ cs)
        → (IsDashed true cs → single_dashes false cs ≡ cs)
        → (IsDashed false cs → single_dashes true cs ≡ cs)
        → single_dashes false (c ∷ cs) ≡ c ∷ cs
    cases (inl w) f g = grind (arith, f)
    cases (inr w) f g = grind (arith, g)

drop_first_dash-IsDashed : (cs : CodeUnits) → IsDashed true cs → IsDashed false (drop_first_dash cs)
unfolding drop_first_dash
drop_first_dash-IsDashed [] h = tt
drop_first_dash-IsDashed (c ∷ cs) (inl w) =
    if_elim (IsDashed false) (c == 45) _ _ (λ d. absurd (ground arith)) (λ d. w)
drop_first_dash-IsDashed (c ∷ cs) (inr (d, h)) =
    if_elim (IsDashed false) (c == 45) _ _ (λ e. h) (λ e. absurd (ground arith))

drop_last_dash-IsSlugged :
    (c : ℕ) (cs : CodeUnits)
    → (IsDashed true (c ∷ cs) → IsSlugged true (drop_last_dash (c ∷ cs)))
      × (IsDashed false (c ∷ cs) → IsSlugged false (drop_last_dash (c ∷ cs)))
unfolding drop_last_dash
drop_last_dash-IsSlugged c [] =
    (alone, λ h. if_elim (IsSlugged false) (c == 45) _ _ (λ e. absurd (ground arith)) (λ e. h))
  where
    alone : IsDashed true (c ∷ []) → IsSlugged true (if c == 45 then [] else c ∷ [])
    alone (inl w) = if_elim (IsSlugged true) (c == 45) _ _ (λ e. tt) (λ e. inl w)
    alone (inr w) = if_elim (IsSlugged true) (c == 45) _ _ (λ e. tt) (λ e. absurd (ground arith))
drop_last_dash-IsSlugged c (d ∷ ds) =
    let rest = drop_last_dash-IsSlugged d ds in (λ h. first h rest.0 rest.1, λ h. (h.0, rest.0 h.1))
  where
    first :
        IsDashed true (c ∷ d ∷ ds)
        → (IsDashed true (d ∷ ds) → IsSlugged true (drop_last_dash (d ∷ ds)))
        → (IsDashed false (d ∷ ds) → IsSlugged false (drop_last_dash (d ∷ ds)))
        → IsSlugged true (c ∷ drop_last_dash (d ∷ ds))
    first (inl (w, h)) f g = inl (w, f h)
    first (inr (e, h)) f g = inr (e, g h)

drop_last_dash-IsSlug : (cs : CodeUnits) → IsDashed false cs → IsSlug (drop_last_dash cs)
unfolding drop_last_dash
drop_last_dash-IsSlug [] h = inl refl
drop_last_dash-IsSlug (c ∷ cs) h = inr ((drop_last_dash-IsSlugged c cs).1 h)

-- The slugs of the three files are the same: nothing is left for `replace(/-+/g, '-')` to do.
pub slugify-slugify_short : (text : CodeUnits) → slugify text ≡ slugify_short text
unfolding slugify slugify_short
slugify-slugify_short text =
    rw
      ((single_dashes-IsDashed (dash_runs false (to_lower_case text))).0
        (dash_runs-IsDashed (to_lower_case text)).0)
      refl

-- A slug is empty or made of words of ASCII letters and digits, with single dashes between them only.
pub slugify-IsSlug : (text : CodeUnits) → IsSlug (slugify text)
unfolding slugify
slugify-IsSlug text =
    rw
      ((single_dashes-IsDashed (dash_runs false (to_lower_case text))).0
        (dash_runs-IsDashed (to_lower_case text)).0)
      (drop_last_dash-IsSlug _ (
        drop_first_dash-IsDashed (dash_runs false (to_lower_case text))
          (dash_runs-IsDashed (to_lower_case text)).0))

lower_unit-word : (c : ℕ) → is_word c ≡ true → lower_unit c ≡ c ∷ []
unfolding lower_unit
lower_unit-word c h = ground arith

lower_unit-dash : (c : ℕ) → c ≡ 45 → lower_unit c ≡ c ∷ []
unfolding lower_unit
lower_unit-dash c h = ground arith

to_lower_case-IsSlugged : (b : Bool) (s : CodeUnits) → IsSlugged b s → to_lower_case s ≡ s
unfolding to_lower_case
to_lower_case-IsSlugged b [] h = refl
to_lower_case-IsSlugged true (c ∷ cs) (inl (w, h)) =
    rw (lower_unit-word c w) (ap (λ x. c ∷ x) (to_lower_case-IsSlugged true cs h))
to_lower_case-IsSlugged true (c ∷ cs) (inr (e, h)) =
    rw (lower_unit-dash c e) (ap (λ x. c ∷ x) (to_lower_case-IsSlugged false cs h))
to_lower_case-IsSlugged false (c ∷ cs) (w, h) =
    rw (lower_unit-word c w) (ap (λ x. c ∷ x) (to_lower_case-IsSlugged true cs h))

dash_runs-IsSlugged :
    (s : CodeUnits)
    → (IsSlugged true s → dash_runs false s ≡ s)
      × (IsSlugged false s → dash_runs true s ≡ s)
      × (IsSlugged false s → dash_runs false s ≡ s)
unfolding dash_runs
dash_runs-IsSlugged [] = (λ h. refl, λ h. refl, λ h. refl)
dash_runs-IsSlugged (c ∷ cs) =
    let rest = dash_runs-IsSlugged cs in
    (λ h. first h rest.0 rest.1, λ h. grind (arith, rest.0), λ h. grind (arith, rest.0))
  where
    first :
        IsSlugged true (c ∷ cs)
        → (IsSlugged true cs → dash_runs false cs ≡ cs)
        → (IsSlugged false cs → dash_runs true cs ≡ cs)
        → dash_runs false (c ∷ cs) ≡ c ∷ cs
    first (inl w) f g = grind (arith, f)
    first (inr w) f g = grind (arith, g)

drop_first_dash-IsSlugged : (s : CodeUnits) → IsSlugged false s → drop_first_dash s ≡ s
unfolding drop_first_dash
drop_first_dash-IsSlugged [] h = refl
drop_first_dash-IsSlugged (c ∷ cs) h = ground arith

drop_last_dash_kept :
    (c : ℕ) (cs : CodeUnits)
    → (IsSlugged true cs → is_word c ≡ true → drop_last_dash (c ∷ cs) ≡ c ∷ cs)
      × (IsSlugged false cs → drop_last_dash (c ∷ cs) ≡ c ∷ cs)
unfolding drop_last_dash
drop_last_dash_kept c [] = (λ h w. ground arith, λ h. absurd h)
drop_last_dash_kept c (d ∷ ds) =
    let rest = drop_last_dash_kept d ds in
    (λ h w. ap (λ x. c ∷ x) (next h rest.0 rest.1), λ h. ap (λ x. c ∷ x) (rest.0 h.1 h.0))
  where
    next :
        IsSlugged true (d ∷ ds)
        → (IsSlugged true ds → is_word d ≡ true → drop_last_dash (d ∷ ds) ≡ d ∷ ds)
        → (IsSlugged false ds → drop_last_dash (d ∷ ds) ≡ d ∷ ds)
        → drop_last_dash (d ∷ ds) ≡ d ∷ ds
    next (inl (w, h)) f g = f h w
    next (inr (e, h)) f g = g h

slugify_short_empty : drop_last_dash (drop_first_dash (dash_runs false (to_lower_case []))) ≡ []
unfolding drop_last_dash drop_first_dash dash_runs to_lower_case
slugify_short_empty = refl

slugify_short_of_slug : (s : CodeUnits) → IsSlug s → slugify_short s ≡ s
unfolding slugify_short
slugify_short_of_slug s (inl e) = rw e slugify_short_empty
slugify_short_of_slug s (inr h) =
    rw
      (
        to_lower_case-IsSlugged false s h,
        (dash_runs-IsSlugged s).2 h,
        drop_first_dash-IsSlugged s h,
      )
      (last s h)
  where
    last : (s : CodeUnits) → IsSlugged false s → drop_last_dash s ≡ s
    last [] h = absurd h
    last (c ∷ cs) (w, h) = (drop_last_dash_kept c cs).0 h w

-- The slug of a slug is that slug: a page that slugs the name in its own path finds the same name again.
pub slugify-slugify : (text : CodeUnits) → slugify (slugify text) ≡ slugify text
slugify-slugify text =
    slugify-slugify_short (slugify text)
    ∙ slugify_short_of_slug (slugify text) (slugify-IsSlug text)
