-- ===== src/Browse/Palette/Search.antt =====
-- static/browse-palette.js: what is typed into the palette, the search that starts 130 ms later, and the
-- replies, which come in any order.
pub mod Laws
use telegram_hls_streamer_v.Base.{
  ℕ, zero, suc, List, [], ◌∷◌, ◌++◌, Option, none, some, if◌then◌else◌, map,
}
use telegram_hls_streamer_v.Base.Decimal.{CodeUnits}
use telegram_hls_streamer_v.Shared.Text.{trim, is_empty}
use telegram_hls_streamer_v.Browse.Palette.{Palette, render, open_palette}
use telegram_hls_streamer_v.Browse.Palette.Texts.{ListedJob, palette_job, quick_actions}

-- The text of the input, the query that `debounce` waits to send, the queries sent and not answered, the
-- oldest first, and the query of the list that is shown. The empty query asks for the default list.
pub record Search : Type 0 where
  pub palette : Palette
  pub input : CodeUnits
  pub timer : Option CodeUnits
  pub in_flight : List CodeUnits
  pub shown_for : Option CodeUnits

unfoldable pub send : CodeUnits → Search → Search
send q s = record s { in_flight = s.in_flight ++ q ∷ [] }

-- The listener of the input, with `scheduleSearch`.
unfoldable pub schedule_search : CodeUnits → Search → Search
schedule_search q s =
    if is_empty q then send [] (record s { timer = none }) else record s { timer = some q }

unfoldable pub type_text : CodeUnits → Search → Search
type_text text s =
    schedule_search (trim text)
      (record s { input = text; palette = record s.palette { active = none } })

unfoldable pub timer_fires : Search → Search
timer_fires s = elim s.timer [ none ↦ s | some q ↦ send q (record s { timer = none }) ]

abbrev pub jobs_or_none : Option (List ListedJob) → List ListedJob
jobs_or_none none = []
jobs_or_none (some jobs) = jobs

-- `render(d.jobs || [], q)`; a request that failed gives no jobs.
unfoldable pub show_reply : Option (List ListedJob) → CodeUnits → Search → Search
show_reply reply q s = record s {
  palette = render (quick_actions q) (map palette_job (jobs_or_none reply)) s.palette;
  shown_for = some q;
}

-- The `n`-th of the open requests is answered.
abbrev pub take_out : {A : Type 0} → ℕ → List A → Option (A × List A)
take_out n [] = none
take_out zero (x ∷ xs) = some (x, xs)
take_out (suc n) (x ∷ xs) = elim (take_out n xs) [ none ↦ none | some r ↦ some (r.0, x ∷ r.1) ]

unfoldable pub deliver :
    (CodeUnits → Option (List ListedJob)) → Option (CodeUnits × List CodeUnits) → Search → Search
deliver server none s = s
deliver server (some (q, rest)) s = show_reply (server q) q (record s { in_flight = rest })

unfoldable pub answer : (CodeUnits → Option (List ListedJob)) → ℕ → Search → Search
answer server n s = deliver server (take_out n s.in_flight) s

-- `open`: the timer of an earlier search is not cleared.
unfoldable pub open_search : Search → Search
open_search s =
    send [] (record s { palette = open_palette s.palette; input = []; shown_for = none })

pub data SearchEvent : Type 0 where
  typed_text : CodeUnits → SearchEvent
  timer_fired : SearchEvent
  answered : ℕ → SearchEvent
  opened : SearchEvent

unfoldable pub search_step : (CodeUnits → Option (List ListedJob)) → Search → SearchEvent → Search
search_step server s (typed_text text) = type_text text s
search_step server s timer_fired = timer_fires s
search_step server s (answered n) = answer server n s
search_step server s opened = open_search s

unfoldable pub search_run :
    (CodeUnits → Option (List ListedJob)) → Search → List SearchEvent → Search
search_run server s [] = s
search_run server s (e ∷ es) = search_run server (search_step server s e) es
