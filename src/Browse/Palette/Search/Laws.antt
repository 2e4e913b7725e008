-- ===== src/Browse/Palette/Search/Laws.antt =====
-- static/browse-palette.js: when the list of the palette belongs to what is typed.
use telegram_hls_streamer_v.Base.{
  zero, suc, true, List, [], ◌∷◌, ◌++◌, Option, none, some, map, ◌≡◌, refl, if_elim, All, ◌∙◌, sym,
  ap, subst,
}
use telegram_hls_streamer_v.Base.Decimal.{CodeUnits}
use telegram_hls_streamer_v.Shared.Text.{trim, is_empty}
use telegram_hls_streamer_v.Browse.Palette.{Item, job_item, action_item, href_of, Palette, render}
use telegram_hls_streamer_v.Browse.Palette.Texts.{ListedJob, palette_job, quick_actions}
use telegram_hls_streamer_v.Browse.Palette.Search.{
  Search, send, schedule_search, type_text, timer_fires, jobs_or_none, show_reply, take_out,
  deliver, answer, open_search, SearchEvent, typed_text, timer_fired, answered, opened, search_step,
  search_run,
}

-- The query that was typed last, as far as a search for it waits, is open or is shown.
abbrev pub newest : Option CodeUnits → List CodeUnits → Option CodeUnits → Option CodeUnits
newest (some q) in_flight shown = some q
newest none [] shown = shown
newest none (q ∷ qs) shown = newest none qs (some q)

newest-append :
    (qs : List CodeUnits) (q : CodeUnits) (shown : Option CodeUnits)
    → newest none (qs ++ q ∷ []) shown ≡ some q
newest-append [] q shown = refl
newest-append (p ∷ qs) q shown = newest-append qs q (some p)

newest-next :
    (o : Option CodeUnits) (qs : List CodeUnits) (q : CodeUnits) (shown : Option CodeUnits)
    → newest o qs (some q) ≡ newest o (q ∷ qs) shown
newest-next none qs q shown = refl
newest-next (some p) qs q shown = refl

-- The items that the reply to a query is turned into.
abbrev pub items_for : (CodeUnits → Option (List ListedJob)) → CodeUnits → List Item
items_for server q =
    map (λ j. job_item (href_of j)) (map palette_job (jobs_or_none (server q)))
    ++ map action_item (quick_actions q)

abbrev pub ShowsItems : (CodeUnits → Option (List ListedJob)) → Option CodeUnits → Palette → Type 0
ShowsItems server none p = Unit
ShowsItems server (some q) p = p.items ≡ items_for server q

abbrev IsCurrent : (CodeUnits → Option (List ListedJob)) → Search → Type 0
IsCurrent server s =
    (newest s.timer s.in_flight s.shown_for ≡ some (trim s.input))
    × ShowsItems server s.shown_for s.palette

-- What happens while the palette is open and the server answers in the order of the requests.
abbrev pub InOrder : SearchEvent → Type 0
InOrder (answered zero) = Unit
InOrder (answered (suc n)) = ⊥
InOrder opened = ⊥
InOrder _ = Unit

module _ (server : CodeUnits → Option (List ListedJob)) where
  ShowsItems-active :
      (shown : Option CodeUnits) (p : Palette)
      → ShowsItems server shown p
      → ShowsItems server shown (record p { active = none })
  ShowsItems-active none p h = tt
  ShowsItems-active (some q) p h = h

  type_text-IsCurrent :
      (text : CodeUnits) (s : Search) → IsCurrent server s → IsCurrent server (type_text text s)
  unfolding type_text schedule_search send
  type_text-IsCurrent text s (n, h) =
      if_elim (λ (r : Search). IsCurrent server r) (is_empty (trim text)) _ _
        (λ t. (
          newest-append s.in_flight [] s.shown_for ∙ ap some (empty (trim text) t),
          ShowsItems-active s.shown_for s.palette h,
        ))
        (λ f. (refl, ShowsItems-active s.shown_for s.palette h))
    where
      empty : (q : CodeUnits) → is_empty q ≡ true → [] ≡ q
      empty [] t = refl
      empty (c ∷ cs) t = absurd cc

  timer_fires-IsCurrent : (s : Search) → IsCurrent server s → IsCurrent server (timer_fires s)
  unfolding timer_fires send
  timer_fires-IsCurrent s (n, h) = go s.timer n
    where
      go :
          (o : Option CodeUnits)
          → newest o s.in_flight s.shown_for ≡ some (trim s.input)
          → IsCurrent server (elim o [
            | none ↦ s
            | some q ↦ record s { timer = none; in_flight = s.in_flight ++ q ∷ [] }
          ])
      go none m = (n, h)
      go (some q) m = (newest-append s.in_flight q s.shown_for ∙ m, h)

  answer-IsCurrent : (s : Search) → IsCurrent server s → IsCurrent server (answer server 0 s)
  unfolding answer deliver show_reply render
  answer-IsCurrent s (n, h) = go s.in_flight n
    where
      go :
          (qs : List CodeUnits)
          → newest s.timer qs s.shown_for ≡ some (trim s.input)
          → IsCurrent server (deliver server (take_out 0 qs) s)
      go [] m = (n, h)
      go (q ∷ rest) m = (newest-next s.timer rest q s.shown_for ∙ m, refl)

  step-IsCurrent :
      (s : Search) (e : SearchEvent)
      → InOrder e
      → IsCurrent server s
      → IsCurrent server (search_step server s e)
  unfolding search_step
  step-IsCurrent s (typed_text text) o h = type_text-IsCurrent text s h
  step-IsCurrent s timer_fired o h = timer_fires-IsCurrent s h
  step-IsCurrent s (answered zero) o h = answer-IsCurrent s h
  step-IsCurrent s (answered (suc n)) o h = elim o [ ]
  step-IsCurrent s opened o h = elim o [ ]

  run-IsCurrent :
      (es : List SearchEvent) (s : Search)
      → All InOrder es
      → IsCurrent server s
      → IsCurrent server (search_run server s es)
  unfolding search_run
  run-IsCurrent [] s o h = h
  run-IsCurrent (e ∷ es) s (o, os) h =
      run-IsCurrent es (search_step server s e) os (step-IsCurrent s e o h)

  settled :
      (s : Search)
      → IsCurrent server s
      → s.timer ≡ none
      → s.in_flight ≡ []
      → (s.shown_for ≡ some (trim s.input)) × (s.palette.items ≡ items_for server (trim s.input))
  settled s (n, h) a b =
      let shown =
        subst (λ o. newest o [] s.shown_for ≡ some (trim s.input)) a
          (subst (λ qs. newest s.timer qs s.shown_for ≡ some (trim s.input)) b n) in
      (shown, subst (λ o. ShowsItems server o s.palette) shown h)

  open-IsCurrent : (s : Search) → s.timer ≡ none → IsCurrent server (open_search s)
  unfolding open_search send trim
  open-IsCurrent s a = (
    subst (λ o. newest o (s.in_flight ++ [] ∷ []) none ≡ some (trim [])) (sym a)
        (newest-append s.in_flight [] none),
    tt,
  )

  -- The palette is opened while no search waits, then texts are typed, timers fire and the server answers the
  -- requests in their order, some perhaps with an error. As soon as no timer runs and no request is open, the list is that
  -- of the text in the input: its items are the jobs the server gives for the trimmed text, and after them the quick
  -- actions whose title has it, whatever the case.
  pub search_run_shows :
      (s : Search) (es : List SearchEvent)
      → s.timer ≡ none
      → All InOrder es
      → (search_run server (open_search s) es).timer ≡ none
      → (search_run server (open_search s) es).in_flight ≡ []
      → ((search_run server (open_search s) es).shown_for
          ≡ some (trim (search_run server (open_search s) es).input))
        × ((search_run server (open_search s) es).palette.items
            ≡ items_for server (trim (search_run server (open_search s) es).input))
  search_run_shows s es a o b c =
      settled (search_run server (open_search s) es)
        (run-IsCurrent es (open_search s) o (open-IsCurrent s a)) b c

-- If the replies to two queries come the other way round, the list of the first is shown under the text of the second.
pub late_reply :
    (server : CodeUnits → Option (List ListedJob)) (s : Search) (p q : CodeUnits)
    → s.in_flight ≡ p ∷ q ∷ []
    → (search_run server s (answered 1 ∷ answered 0 ∷ [])).shown_for ≡ some p
unfolding search_run search_step answer deliver show_reply
late_reply server s p q h = rw h refl

-- `open` leaves the timer of a search that was typed before: it fires, and its reply is shown under the empty input.
pub stale_timer :
    (server : CodeUnits → Option (List ListedJob)) (s : Search) (q : CodeUnits)
    → s.timer ≡ some q
    → s.in_flight ≡ []
    → (search_run server (open_search s) (answered 0 ∷ timer_fired ∷ answered 0 ∷ [])).shown_for
      ≡ some q
unfolding search_run search_step answer deliver show_reply open_search send timer_fires
stale_timer server s q a b = rw (a, b) refl
