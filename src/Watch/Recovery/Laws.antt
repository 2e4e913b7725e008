-- ===== src/Watch/Recovery/Laws.antt =====
-- static/watch.js: the recovery from a full buffer happens at most once, and no error is lost.
use telegram_hls_streamer_v.Base.{
  ℕ, suc, ◌+◌, ◌≤◌, Bool, true, false, not, ◌&&◌, List, [], ◌∷◌, none, some, ◌==◌, String, ◌≡◌,
  refl, arith, if_elim, length,
}
use telegram_hls_streamer_v.Watch.Recovery.{
  small_config, get_buffer_config, Page, init_player, show_error, Restart, failed, loads,
  not_loaded, PlayerError, restarted, on_error, errors,
}

-- The page after a first start: no recovery, or exactly one.
pub data Stage (n : ℕ) (p : Page) : Type 0 where
  first : p.attempted_quota_recovery ≡ false → p.inits ≡ n → Stage n p
  second : p.attempted_quota_recovery ≡ true → p.inits ≡ suc n → p.config ≡ small_config → Stage n p

show_error-Stage : (n code : ℕ) (m : String) (p : Page) → Stage n p → Stage n (show_error code m p)
unfolding show_error
show_error-Stage n code m p (first a b) = first a b
show_error-Stage n code m p (second a b c) = second a b c

restarted-Stage :
    (n : ℕ) (e : PlayerError) (t : ℕ) (o : Restart) (p : Page)
    → Stage n p
    → Stage n (restarted e t o p)
unfolding restarted
restarted-Stage n e t failed p s = show_error-Stage n e.code e.message p s
restarted-Stage n e t (loads u) p (first a b) = first a b
restarted-Stage n e t (loads u) p (second a b c) = second a b c
restarted-Stage n e t (not_loaded u) p (first a b) = first a b
restarted-Stage n e t (not_loaded u) p (second a b c) = second a b c

on_error-Stage :
    (n : ℕ) (is_mobile : Bool) (p : Page) (e : PlayerError)
    → Stage n p
    → Stage n (on_error is_mobile p e)
unfolding on_error
on_error-Stage n is_mobile p e (first a b) =
    if_elim (Stage n) ((e.code == 3017) && not p.attempted_quota_recovery) _ _
      (λ t.
        restarted-Stage n e p.current_time e.restart (init_player is_mobile (some small_config) p)
          (unfold init_player get_buffer_config in second refl (rw b refl) refl))
      (λ t. show_error-Stage n e.code e.message p (first a b))
on_error-Stage n is_mobile p e (second a b c) =
    if_elim (Stage n) ((e.code == 3017) && not p.attempted_quota_recovery) _ _
      (λ t. absurd (ground arith)) (λ t. show_error-Stage n e.code e.message p (second a b c))

errors-Stage :
    (n : ℕ) (is_mobile : Bool) (p : Page) (es : List PlayerError)
    → Stage n p
    → Stage n (errors is_mobile p es)
unfolding errors
errors-Stage n is_mobile p [] s = s
errors-Stage n is_mobile p (e ∷ es) s =
    errors-Stage n is_mobile (on_error is_mobile p e) es (on_error-Stage n is_mobile p e s)

-- From a start without an override, however many errors of whatever codes come, the player is started at most once
-- more, and then with the small buffer.
pub errors-init_player :
    (is_mobile : Bool) (p : Page) (es : List PlayerError)
    → Stage (suc p.inits) (errors is_mobile (init_player is_mobile none p) es)
unfolding init_player get_buffer_config
errors-init_player is_mobile p es =
    errors-Stage (suc p.inits) is_mobile (init_player is_mobile none p) es (first refl refl)

show_error-notices :
    (code : ℕ) (m : String) (p : Page)
    → suc (length p.notices) ≤ length (show_error code m p).notices
unfolding show_error
show_error-notices code m p = ground arith

restarted-notices :
    (e : PlayerError) (t : ℕ) (o : Restart) (p : Page)
    → suc (length p.notices) ≤ length (restarted e t o p).notices
unfolding restarted
restarted-notices e t failed p = show_error-notices e.code e.message p
restarted-notices e t (loads u) p = ground arith
restarted-notices e t (not_loaded u) p = ground arith

on_error-notices :
    (is_mobile : Bool) (p : Page) (e : PlayerError)
    → suc (length p.notices) ≤ length (on_error is_mobile p e).notices
unfolding on_error init_player
on_error-notices is_mobile p e =
    if_elim (λ (q : Page). suc (length p.notices) ≤ length q.notices)
      ((e.code == 3017) && not p.attempted_quota_recovery) _ _
      (λ t.
        restarted-notices e p.current_time e.restart (init_player is_mobile (some small_config) p))
      (λ t. show_error-notices e.code e.message p)

-- No error is passed over: however many come, the page has at least as many notices more than before.
pub errors-notices :
    (is_mobile : Bool) (p : Page) (es : List PlayerError)
    → length es + length p.notices ≤ length (errors is_mobile p es).notices
unfolding errors
errors-notices is_mobile p [] = ground arith
errors-notices is_mobile p (e ∷ es) =
    let h = on_error-notices is_mobile p e in
    let k = errors-notices is_mobile (on_error is_mobile p e) es in omega arith
