-- ===== src/Settings/Sections/Laws.antt =====
-- static/settings.js: every category stands in its section, and a section stays active when the page is
-- rendered again.
use telegram_hls_streamer_v.Base.{
  Bool, true, false, List, [], ◌∷◌, ◌++◌, if◌then◌else◌, ◌==◌, ◌≡◌, refl, arith, if_elim, ap, ◌∙◌,
  sym, filter, Bool-cases, inl, inr,
}
use telegram_hls_streamer_v.Base.Decimal.{CodeUnits}
use mathlib.Core.List.{append_assoc, append-nil}
use telegram_hls_streamer_v.Settings.Sections.{
  SectionId, section_number, same_section_id, section_of, Group, add_category, add_all, section_map,
  categories_in,
}

abbrev appended : Bool → List CodeUnits → CodeUnits → List CodeUnits
appended b cats cat = if b then cats ++ cat ∷ [] else cats

same_group :
    (b : Bool) (xs r : List CodeUnits) (cat : CodeUnits)
    → (if b then xs ++ cat ∷ [] else r) ≡ appended b (if b then xs else r) cat
same_group true xs r cat = refl
same_group false xs r cat = refl

same_section_id_trans :
    (s t u : SectionId) → same_section_id u t ≡ true → same_section_id t s ≡ same_section_id u s
unfolding same_section_id
same_section_id_trans s t u h =
    let e : section_number t ≡ section_number u = ground arith in ap (λ n. n == section_number s) e

apart :
    (s t u : SectionId)
    → same_section_id u t ≡ false
    → same_section_id u s ≡ true
    → same_section_id t s ≡ false
unfolding same_section_id
apart s t u h k = ground arith

other_group :
    (s t u : SectionId) (xs r r' : List CodeUnits) (cat : CodeUnits)
    → same_section_id u t ≡ false
    → r' ≡ appended (same_section_id t s) r cat
    → (if same_section_id u s then xs else r')
      ≡ appended (same_section_id t s) (if same_section_id u s then xs else r) cat
other_group s t u xs r r' cat h k = elim (Bool-cases (same_section_id u s)) [
  | inl e ↦ rw (e, apart s t u h e) refl
  | inr e ↦ rw e k
]

categories_in-add_category :
    (s t : SectionId) (cat : CodeUnits) (gs : List Group)
    → categories_in s (add_category t cat gs)
      ≡ appended (same_section_id t s) (categories_in s gs) cat
unfolding add_category categories_in
categories_in-add_category s t cat [] = refl
categories_in-add_category s t cat (g ∷ gs) =
    let rest = categories_in-add_category s t cat gs in
    if_elim
      (λ w.
        categories_in s w
        ≡ appended (same_section_id t s)
            (if same_section_id g.section s then g.categories else categories_in s gs) cat)
      (same_section_id g.section t) _ _
      (λ k.
        rw (same_section_id_trans s t g.section k)
          (same_group (same_section_id g.section s) g.categories (categories_in s gs) cat))
      (λ k.
        other_group s t g.section g.categories (categories_in s gs)
          (categories_in s (add_category t cat gs)) cat k rest)

abbrev stands_in : SectionId → CodeUnits → Bool
stands_in s cat = same_section_id (section_of cat) s

appended-filter :
    (b : Bool) (xs ys : List CodeUnits) (cat : CodeUnits)
    → appended b xs cat ++ ys ≡ xs ++ (if b then cat ∷ ys else ys)
appended-filter true xs ys cat = append_assoc xs (cat ∷ []) ys
appended-filter false xs ys cat = refl

categories_in-add_all :
    (s : SectionId) (cats : List CodeUnits) (gs : List Group)
    → categories_in s (add_all cats gs) ≡ categories_in s gs ++ filter (stands_in s) cats
unfolding add_all
categories_in-add_all s [] gs = sym (append-nil (categories_in s gs))
categories_in-add_all s (cat ∷ cats) gs =
    categories_in-add_all s cats (add_category (section_of cat) cat gs)
    ∙ ap (λ xs. xs ++ filter (stands_in s) cats)
        (categories_in-add_category s (section_of cat) cat gs)
    ∙ appended-filter (stands_in s cat) (categories_in s gs) (filter (stands_in s) cats) cat

-- Every section has exactly the categories that belong to it, each as often as the server names it and
-- in the server's order.
pub categories_in-section_map :
    (s : SectionId) (cats : List CodeUnits)
    → categories_in s (section_map cats) ≡ filter (λ cat. same_section_id (section_of cat) s) cats
unfolding section_map categories_in
categories_in-section_map s cats = categories_in-add_all s cats []
