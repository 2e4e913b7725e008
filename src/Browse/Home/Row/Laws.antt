-- ===== src/Browse/Home/Row/Laws.antt =====
-- static/browse-home.js: what the row to continue watching has, and in which order.
use telegram_hls_streamer_v.Base.{ℕ, true, false, List, Option, String, filter, ◌≡◌, arith}
use telegram_hls_streamer_v.Base.Sorting.{IsOrdered, sort_with-IsOrdered, sort_with-Perm}
use telegram_hls_streamer_v.Watch.Progress.{ProgressMap}
use telegram_hls_streamer_v.Browse.Home.{Recent, is_watched}
use telegram_hls_streamer_v.Browse.Home.Row.{later_first, continue_watching}
use mathlib.Core.List.{Perm}

later_first-IsTotal :
    (server : String → Option ℕ) (m : ProgressMap) (a b : Recent)
    → later_first server m a b ≡ false
    → later_first server m b a ≡ true
later_first-IsTotal server m a b h = ground arith

-- The row has every job that is begun and not over, each once, and the one watched last stands first: no job was
-- watched after the one before it, by the server's time or else the page's own.
pub continue_watching-Perm :
    (server : String → Option ℕ) (m : ProgressMap) (jobs : List Recent)
    → Perm (continue_watching server m jobs) (filter is_watched jobs)
      × IsOrdered (later_first server m) (continue_watching server m jobs)
unfolding continue_watching
continue_watching-Perm server m jobs = (
  sort_with-Perm (later_first server m) (filter is_watched jobs),
  sort_with-IsOrdered (later_first server m) (filter is_watched jobs)
      (later_first-IsTotal server m),
)
