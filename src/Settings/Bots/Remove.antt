-- ===== src/Settings/Bots/Remove.antt =====
-- static/settings.js: the list of bots from the server, and the removal of one.
use telegram_hls_streamer_v.Base.{Bool, true, false, List, [], ◌∷◌, ◌++◌, Option, none, some}
use telegram_hls_streamer_v.Base.Decimal.{CodeUnits, codes}
use telegram_hls_streamer_v.Settings.Bots.{Bot, Bots, render_bot_list}

-- The bots, or the message that they could not be loaded, and the alerts.
pub record BotPage : Type 0 where
  pub bots : Bots
  pub load_failed : Bool
  pub bot_alerts : List CodeUnits

-- loadBots, by the reply: `none` is a failure.
unfoldable pub load_bots : Option (List Bot) → BotPage → BotPage
load_bots none p = record p { load_failed = true }
load_bots (some bs) p = record p { bots = render_bot_list bs p.bots; load_failed = false }

pub data DeleteReply : Type 0 where
  bot_deleted : Option (List Bot) → DeleteReply
  bot_kept : CodeUnits → DeleteReply

-- deleteBot, by the user's answer and the reply; after a removal the list is loaded anew, with the reply to that.
unfoldable pub delete_bot : Bool → DeleteReply → BotPage → BotPage
delete_bot false reply p = p
delete_bot true (bot_deleted bs) p = load_bots bs p
delete_bot true (bot_kept message) p = record p {
  bot_alerts =
      p.bot_alerts
      ++ (codes "Delete failed: " ++ elim message [ [] ↦ codes "Delete failed" | c ∷ cs ↦ c ∷ cs ])
        ∷ [];
}
