-- ===== src/Browse/Palette/Laws.antt =====
-- static/browse-palette.js: the rows and the items behind them belong together, and the keys stay among them.
use telegram_hls_streamer_v.Base.{
  ℕ, ◌<◌, ◌+◌, ◌-◌, List, [], ◌∷◌, ◌++◌, Option, none, some, ◌==◌, length, get_elem?, map, min, ◌≡◌,
  refl, ◌≢◌, arith, if_elim, All, zero, suc, ◌∙◌, subst,
}
use telegram_hls_streamer_v.Browse.Palette.{
  Action, Item, job_item, action_item, Job, href_of, Palette, render, move_down, move_up, activated,
  open_palette, Event, typed, listed, arrow_down, arrow_up, enter, escape, shortcut, step, run,
}

-- As many rows as items, and the marked row among them.
abbrev pub IsActiveBelow : ℕ → Option ℕ → Type 0
IsActiveBelow n none = Unit
IsActiveBelow n (some i) = i < n

abbrev pub IsSettled : Palette → Type 0
IsSettled p = (p.rows ≡ length p.items) × IsActiveBelow p.rows p.active

-- The arrow keys, down and up.
abbrev pub Arrow : Event → Type 0
Arrow arrow_down = Unit
Arrow arrow_up = Unit
Arrow _ = ⊥

length-map : {A B : Type 0} (f : A → B) (xs : List A) → length (map f xs) ≡ length xs
length-map f [] = refl
length-map f (x ∷ xs) = ground (arith, length-map f xs)

length-append : {A : Type 0} (xs ys : List A) → length (xs ++ ys) ≡ length xs + length ys
length-append [] ys = ground arith
length-append (x ∷ xs) ys = ground (arith, length-append xs ys)

length-items :
    (actions : List Action) (jobs : List Job)
    → length jobs + length actions
      ≡ length (map (λ j. job_item (href_of j)) jobs ++ map action_item actions)
length-items actions jobs = omega (
  arith,
  length-append (map (λ j. job_item (href_of j)) jobs) (map action_item actions),
  length-map (λ j. job_item (href_of j)) jobs,
  length-map action_item actions,
)

move_down-IsSettled : (p : Palette) → IsSettled p → IsSettled (move_down p)
unfolding move_down
move_down-IsSettled p (a, b) =
    if_elim IsSettled (p.rows == 0) _ _ (λ t. (a, b)) (λ f. go p.active (ground arith))
  where
    go :
        (o : Option ℕ)
        → p.rows ≢ 0
        → IsSettled (elim o [
          | none ↦ record p { active = some 0 }
          | some i ↦ record p { active = some (min (p.rows - 1) (i + 1)) }
        ])
    go none ne = (a, omega arith)
    go (some i) ne = (a, omega arith)

move_up-IsSettled : (p : Palette) → IsSettled p → IsSettled (move_up p)
unfolding move_up
move_up-IsSettled p (a, b) =
    if_elim IsSettled (p.rows == 0) _ _ (λ t. (a, b)) (λ f. go p.active (ground arith))
  where
    go :
        (o : Option ℕ)
        → p.rows ≢ 0
        → IsSettled (elim o [
          | none ↦ record p { active = some (p.rows - 1) }
          | some i ↦ record p { active = some (min (p.rows - 1) (i - 1)) }
        ])
    go none ne = (a, omega arith)
    go (some i) ne = (a, omega arith)

move_down-rows : (p : Palette) → (move_down p).rows ≡ p.rows
unfolding move_down
move_down-rows p = ground arith

move_up-rows : (p : Palette) → (move_up p).rows ≡ p.rows
unfolding move_up
move_up-rows p = ground arith

run-arrows :
    (p : Palette) (es : List Event)
    → All Arrow es
    → IsSettled p
    → IsSettled (run p es) × ((run p es).rows ≡ p.rows)
unfolding run step
run-arrows p [] h s = (s, refl)
run-arrows p (arrow_down ∷ es) (h, hs) s =
    let rest = run-arrows (move_down p) es hs (move_down-IsSettled p s) in
    (rest.0, rest.1 ∙ move_down-rows p)
run-arrows p (arrow_up ∷ es) (h, hs) s =
    let rest = run-arrows (move_up p) es hs (move_up-IsSettled p s) in
    (rest.0, rest.1 ∙ move_up-rows p)
run-arrows p (typed ∷ es) (h, hs) s = absurd h
run-arrows p (listed a j ∷ es) (h, hs) s = absurd h
run-arrows p (enter ∷ es) (h, hs) s = absurd h
run-arrows p (escape ∷ es) (h, hs) s = absurd h
run-arrows p (shortcut ∷ es) (h, hs) s = absurd h

get_inside : {A : Type 0} (xs : List A) (i : ℕ) → i < length xs → get_elem? xs i ≢ none
get_inside [] i h = absurd (omega arith)
get_inside (x ∷ xs) zero h = λ e. cc e
get_inside (x ∷ xs) (suc i) h = get_inside xs i (omega arith)

activated-IsSettled : (p : Palette) → IsSettled p → 0 < p.rows → activated p ≢ none
unfolding activated
activated-IsSettled p (a, b) pos = go p.active b
  where
    go :
        (o : Option ℕ)
        → IsActiveBelow p.rows o
        → get_elem? p.items (elim o [ none ↦ 0 | some i ↦ i ]) ≢ none
    go none h = get_inside p.items 0 (omega arith)
    go (some i) h = get_inside p.items i (omega arith)

-- When a text was typed, its list has come with at least one row, and any arrow keys were used since, the marked row is
-- one of those shown and Enter opens an item.
pub activated-run :
    (p : Palette) (actions : List Action) (jobs : List Job) (es : List Event)
    → All Arrow es
    → 0 < length jobs + length actions
    → IsActiveBelow (length jobs + length actions) (run p (typed ∷ listed actions jobs ∷ es)).active
      × (activated (run p (typed ∷ listed actions jobs ∷ es)) ≢ none)
unfolding run step render
activated-run p actions jobs es h pos =
    let settled =
      run-arrows (render actions jobs (record p { active = none })) es h
        (length-items actions jobs, tt) in
    let listing : Palette = run (render actions jobs (record p { active = none })) es in
    let inside : IsSettled listing = settled.0 in
    (
      subst (λ n. IsActiveBelow n listing.active) settled.1 inside.1,
      activated-IsSettled listing inside (omega (arith, settled.1, pos)),
    )

-- Enter before the list has come opens the first item of the list that was there the last time,
-- although no row is shown.
pub activated-open_palette :
    (p : Palette) (x : Item) (xs : List Item)
    → p.items ≡ x ∷ xs
    → (activated (open_palette p) ≡ some x) × ((open_palette p).rows ≡ 0)
unfolding activated open_palette
activated-open_palette p x xs h = rw h (refl, refl)
