-- ===== src/Settings/Bots.antt =====
-- static/settings.js: the bots, their health, and the dialog that adds one; and the database's messages.
pub mod Laws
pub mod Remove
use telegram_hls_streamer_v.Base.{
  ℕ, Bool, true, false, ◌||◌, ◌&&◌, List, [], ◌∷◌, Option, none, some, if◌then◌else◌, Numeric,
  String, ◌==◌, map, or_text,
}
use telegram_hls_streamer_v.Base.Decimal.{CodeUnits}
use telegram_hls_streamer_v.Shared.Text.{trim, parse_int, is_empty}
use telegram_hls_streamer_v.Settings.Fields.{Status, blank, busy, good, bad}

-- The class of the dot of a bot.
pub data Dot : Type 0 where
  unknown : Dot
  checking : Dot
  up : Dot
  down : Dot

pub record Bot : Type 0 where
  pub index : ℕ
  pub db_id : Option ℕ
  pub from_db : Bool

pub record BotRow : Type 0 where
  pub bot : Bot
  pub dot : Dot
  pub label : String
  pub deletable : Bool

abbrev pub is_some : Option ℕ → Bool
is_some none = false
is_some (some n) = true

unfoldable pub render_bot_row : Bot → BotRow
render_bot_row b = record {
  bot = b;
  dot = unknown;
  label = "—";
  deletable = b.from_db && is_some b.db_id;
}

-- The dialog of a new bot.
pub record BotForm : Type 0 where
  pub token : CodeUnits
  pub channel : CodeUnits
  pub name : CodeUnits
  pub shown : Bool
  pub status : Status
  pub button_disabled : Bool

pub record Bots : Type 0 where
  pub rows : List BotRow
  pub health_status : Status
  pub form : BotForm

unfoldable pub render_bot_list : List Bot → Bots → Bots
render_bot_list bots p = record p { rows = map render_bot_row bots }

-- A result of a health check.
pub record HealthResult : Type 0 where
  pub result_index : ℕ
  pub result_ok : Bool
  pub result_error : Option String

abbrev pub dot_of : HealthResult → Dot
dot_of r = if r.result_ok then up else down

abbrev pub result_label : HealthResult → String
result_label r = if r.result_ok then "OK" else or_text r.result_error "Error"

unfoldable pub set_dot : ℕ → Dot → String → List BotRow → List BotRow
set_dot i d l [] = []
set_dot i d l (r ∷ rs) =
    let rest = set_dot i d l rs in
    if r.bot.index == i then record r { dot = d; label = l } ∷ rest else r ∷ rest

unfoldable pub update_bot_status : HealthResult → List BotRow → List BotRow
update_bot_status r rows = set_dot r.result_index (dot_of r) (result_label r) rows

unfoldable pub set_all_dots : Dot → List BotRow → List BotRow
set_all_dots d [] = []
set_all_dots d (r ∷ rs) = record r { dot = d } ∷ set_all_dots d rs

-- checkBotHealth: the start, and the reply. `d.results?.[0]` may be missing.
unfoldable pub check_bot : ℕ → Bots → Bots
check_bot i p = record p { rows = set_dot i checking "Checking…" p.rows }

pub data CheckReply : Type 0 where
  results : List HealthResult → CheckReply
  no_results : CheckReply
  check_failed : String → CheckReply

unfoldable pub check_bot_reply : ℕ → CheckReply → Bots → Bots
check_bot_reply i (results []) p = p
check_bot_reply i (results (r ∷ rs)) p = record p {
  rows = set_dot i (dot_of r) (result_label r) p.rows;
}
check_bot_reply i no_results p = p
check_bot_reply i (check_failed m) p = record p { rows = set_dot i down m p.rows }

-- checkAllBotHealth, which leaves the labels as they are.
unfoldable pub check_all : Bots → Bots
check_all p = record p { rows = set_all_dots checking p.rows; health_status = busy "Checking all…" }

unfoldable pub update_all : List HealthResult → List BotRow → List BotRow
update_all [] rows = rows
update_all (r ∷ rs) rows = update_all rs (update_bot_status r rows)

abbrev pub every_ok : List HealthResult → Bool
every_ok [] = true
every_ok (r ∷ rs) = r.result_ok && every_ok rs

unfoldable pub check_all_reply : CheckReply → Bots → Bots
check_all_reply (results rs) p = record p {
  rows = update_all rs p.rows;
  health_status = if every_ok rs then good "All bots OK" else bad "Some bots have errors";
}
check_all_reply no_results p = record p { health_status = bad "Some bots have errors" }
check_all_reply (check_failed m) p = record p {
  rows = set_all_dots down p.rows;
  health_status = bad m;
}

-- openAddBotModal and closeAddBotModal.
unfoldable pub open_add_bot : Bots → Bots
open_add_bot p = record p {
  form = record p.form { token = []; channel = []; name = []; status = blank; shown = true };
}

unfoldable pub close_add_bot : Bots → Bots
close_add_bot p = record p { form = record p.form { shown = false } }

-- The body of the request of testAndSaveBot.
pub record NewBot : Type 0 where
  pub new_token : CodeUnits
  pub new_channel : Numeric
  pub new_label : CodeUnits

unfoldable pub new_bot : BotForm → Option NewBot
new_bot f =
    if is_empty (trim f.token) || is_empty (trim f.channel)
    then none
    else some (record {
      new_token = trim f.token;
      new_channel = parse_int (trim f.channel);
      new_label = trim f.name;
    })

unfoldable pub test_and_save : Bots → Bots × Option NewBot
test_and_save p = elim (new_bot p.form) [
  | none ↦ (
    record p { form = record p.form { status = bad "Token and Channel ID are required." } },
    none,
  )
  | some b ↦ (
    record p { form = record p.form { status = busy "Testing…"; button_disabled = true } },
    some b,
  )
]

-- The reply, and the timer that closes the dialog after a success.
pub data AddReply : Type 0 where
  added : AddReply
  not_added : String → AddReply

unfoldable pub add_reply : AddReply → Bots → Bots
add_reply added p = record p {
  form = record p.form { status = good "Bot added successfully!"; button_disabled = false };
}
add_reply (not_added m) p = record p {
  form = record p.form { status = bad m; button_disabled = false };
}
