-- ===== src/Settings/Bots/Laws.antt =====
-- static/settings.js: what a health check of all bots shows.
use telegram_hls_streamer_v.Base.{
  ℕ, Bool, true, false, List, [], ◌∷◌, none, if◌then◌else◌, ◌==◌, ◌≡◌, refl, ◌≢◌, arith, if_elim,
  String, ◌⊎◌, ◌↔◌,
}
use telegram_hls_streamer_v.Shared.Text.{trim, is_empty}
use telegram_hls_streamer_v.Settings.Fields.{good, bad}
use telegram_hls_streamer_v.Settings.Bots.{
  Dot, checking, BotRow, Bots, HealthResult, dot_of, result_label, set_dot, update_bot_status,
  set_all_dots, results, check_all, update_all, every_ok, check_all_reply, new_bot, test_and_save,
}

-- The last result for a bot, if there is one.
abbrev pub last_for : ℕ → Dot → List HealthResult → Dot
last_for i d [] = d
last_for i d (r ∷ rs) = last_for i (if i == r.result_index then dot_of r else d) rs

-- The dot of every bot is the last result for it, or else what it was.
abbrev pub Shows : (ℕ → Dot) → List BotRow → Type 0
Shows dots [] = Unit
Shows dots (r ∷ rs) = (r.dot ≡ dots r.bot.index) × Shows dots rs

Shows-set_dot :
    (dots : ℕ → Dot) (i : ℕ) (d : Dot) (l : String) (rows : List BotRow)
    → Shows dots rows
    → Shows (λ j. if j == i then d else dots j) (set_dot i d l rows)
unfolding set_dot
Shows-set_dot dots i d l [] h = tt
Shows-set_dot dots i d l (r ∷ rs) (h, hs) =
    if_elim (Shows (λ j. if j == i then d else dots j)) (r.bot.index == i) _ _
      (λ t. (rw t refl, Shows-set_dot dots i d l rs hs))
      (λ t. (rw t h, Shows-set_dot dots i d l rs hs))

Shows-update_all :
    (dots : ℕ → Dot) (rs : List HealthResult) (rows : List BotRow)
    → Shows dots rows
    → Shows (λ i. last_for i (dots i) rs) (update_all rs rows)
unfolding update_all update_bot_status
Shows-update_all dots [] rows h = h
Shows-update_all dots (r ∷ rs) rows h =
    Shows-update_all (λ j. if j == r.result_index then dot_of r else dots j) rs
      (set_dot r.result_index (dot_of r) (result_label r) rows)
      (Shows-set_dot dots r.result_index (dot_of r) (result_label r) rows h)

Shows-set_all : (d : Dot) (rows : List BotRow) → Shows (λ i. d) (set_all_dots d rows)
unfolding set_all_dots
Shows-set_all d [] = tt
Shows-set_all d (r ∷ rs) = (refl, Shows-set_all d rs)

told :
    (b : Bool)
    → ((if b then good "All bots OK" else bad "Some bots have errors") ≡ good "All bots OK")
      ↔ (b ≡ true)
told true = ((λ _. refl), λ _. refl)
told false = ((λ h. cc h), λ h. cc h)

-- After a check of all bots that the server answers with results, the dot of every bot shows its last
-- result, and stays at checking where there is none; the status says that all bots are well exactly if
-- every result is ok.
pub check_all_reply-check_all :
    (rs : List HealthResult) (p : Bots)
    → Shows (λ i. last_for i checking rs) (check_all_reply (results rs) (check_all p)).rows
      × ((check_all_reply (results rs) (check_all p)).health_status ≡ good "All bots OK"
          ↔ every_ok rs ≡ true)
unfolding check_all_reply check_all
check_all_reply-check_all rs p = (
  Shows-update_all (λ i. checking) rs (set_all_dots checking p.rows)
      (Shows-set_all checking p.rows),
  told (every_ok rs),
)

-- If the server gives no results at all, then the page says that all bots are well while every bot stays
-- marked as being checked.
pub check_all_reply-nothing :
    (p : Bots)
    → ((check_all_reply (results []) (check_all p)).health_status ≡ good "All bots OK")
      × Shows (λ i. checking) (check_all_reply (results []) (check_all p)).rows
unfolding check_all_reply check_all update_all
check_all_reply-nothing p = (refl, Shows-set_all checking p.rows)

-- A bot is sent to the server exactly if neither its token nor its channel is blank, and then the button is disabled;
-- otherwise the dialog says that both are required and nothing else changes.
pub test_and_save-guard :
    (p : Bots)
    → ((is_empty (trim p.form.token) ≡ false)
        × (is_empty (trim p.form.channel) ≡ false)
        × ((test_and_save p).1 ≢ none)
        × ((test_and_save p).0.form.button_disabled ≡ true))
      ⊎ (((is_empty (trim p.form.token) ≡ true) ⊎ (is_empty (trim p.form.channel) ≡ true))
          × ((test_and_save p).1 ≡ none)
          × ((test_and_save p).0 ≡ record p {
            form = record p.form { status = bad "Token and Channel ID are required." };
          }))
unfolding test_and_save new_bot
test_and_save-guard p = ground arith
