-- ===== src/Shared/Theme/Laws.antt =====
-- static/shared.js: the theme is the same after a reload, and the sidebar after any widths between.
use telegram_hls_streamer_v.Base.{
  ℕ, zero, suc, arith, Bool, true, false, not, List, [], ◌∷◌, ◌++◌, ◌∙◌, some, ◌≡◌, refl,
}
use telegram_hls_streamer_v.Shared.Theme.{
  ThemePage, theme_name, saved_or, init_theme, toggle_theme, toggle_times, Sidebar, update_sidebar,
  resize,
}

theme_name-saved : (preferred b : Bool) → saved_or preferred (some (theme_name b)) ≡ b
theme_name-saved preferred true = refl
theme_name-saved preferred false = refl

-- After one or more clicks on the button a reload shows the theme that was shown last, whatever the system
-- prefers by then.
pub init_theme-toggle_times :
    (n : ℕ) (p : ThemePage) (prefers_dark : Bool)
    → init_theme prefers_dark (toggle_times (suc n) p).stored ≡ toggle_times (suc n) p
unfolding init_theme toggle_times toggle_theme
init_theme-toggle_times zero p prefers_dark =
    rw (theme_name-saved prefers_dark (not p.is_dark)) refl
init_theme-toggle_times (suc n) p prefers_dark =
    init_theme-toggle_times n (toggle_theme p) prefers_dark

update_sidebar-update_sidebar :
    (w w' : ℕ) (s : Sidebar) → update_sidebar w (update_sidebar w' s) ≡ update_sidebar w s
unfolding update_sidebar
update_sidebar-update_sidebar w w' s = ground arith

-- Whatever widths the window had before, the sidebar is as for the last width alone.
pub resize_last : (ws : List ℕ) (w : ℕ) (s : Sidebar) → resize (ws ++ w ∷ []) s ≡ update_sidebar w s
unfolding resize
resize_last [] w s = refl
resize_last (w' ∷ ws) w s =
    resize_last ws w (update_sidebar w' s) ∙ update_sidebar-update_sidebar w w' s
