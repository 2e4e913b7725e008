-- ===== src/Shared/Theme.antt =====
-- static/shared.js: the theme, which the browser keeps, and the sidebar.
pub mod Laws
use telegram_hls_streamer_v.Base.{
  ℕ, zero, suc, Bool, true, false, not, List, [], ◌∷◌, Option, none, some, if◌then◌else◌, leb,
}
use telegram_hls_streamer_v.Base.Decimal.{CodeUnits, codes}
use telegram_hls_streamer_v.Shared.Text.{same_text, is_empty}

-- The page's theme and what the browser's storage has.
pub record ThemePage : Type 0 where
  pub is_dark : Bool
  pub stored : Option CodeUnits

abbrev pub theme_name : Bool → CodeUnits
theme_name dark = if dark then codes "dark" else codes "light"

-- The saved theme; an empty text is none, as for one that is missing.
abbrev pub saved_or : Bool → Option CodeUnits → Bool
saved_or preferred none = preferred
saved_or preferred (some s) = if is_empty s then preferred else same_text s (codes "dark")

-- initTheme: what the system prefers is the browser's answer.
unfoldable pub init_theme : Bool → Option CodeUnits → ThemePage
init_theme prefers_dark saved = record { is_dark = saved_or prefers_dark saved; stored = saved }

-- A click on the button.
unfoldable pub toggle_theme : ThemePage → ThemePage
toggle_theme p = record { is_dark = not p.is_dark; stored = some (theme_name (not p.is_dark)) }

unfoldable pub toggle_times : ℕ → ThemePage → ThemePage
toggle_times zero p = p
toggle_times (suc n) p = toggle_times n (toggle_theme p)

-- The sidebar: `is_open` is `sidebarOpen`, the others are classes.
pub record Sidebar : Type 0 where
  pub is_open : Bool
  pub has_open : Bool
  pub has_collapsed : Bool
  pub main_collapsed : Bool

unfoldable pub update_sidebar : ℕ → Sidebar → Sidebar
update_sidebar width s =
    if leb width 1024
    then record s { has_open = s.is_open; has_collapsed = false; main_collapsed = true }
    else record s {
      has_open = false;
      has_collapsed = not s.is_open;
      main_collapsed = not s.is_open;
    }

-- A click on the button, and a new width of the window.
unfoldable pub click_sidebar : ℕ → Sidebar → Sidebar
click_sidebar width s = update_sidebar width (record s { is_open = not s.is_open })

unfoldable pub resize : List ℕ → Sidebar → Sidebar
resize [] s = s
resize (w ∷ ws) s = resize ws (update_sidebar w s)
