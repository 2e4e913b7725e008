-- ===== src/Settings/Database/Laws.antt =====
-- static/settings.js: the button that loads a database is disabled exactly while its one request waits.
use telegram_hls_streamer_v.Base.{
  ℕ, Bool, true, false, List, [], ◌∷◌, if◌then◌else◌, ◌≡◌, refl, if_elim,
}
use telegram_hls_streamer_v.Settings.Database.{
  DbPage, DbReply, downloaded, download_refused, backed_up, backup_refused, uploaded,
  upload_refused, imported, import_refused, db_reply, start_export, start_backup, start_telegram,
  start_import, start_load, load_reply, one_less, DbEvent, export_clicked, backup_clicked,
  telegram_clicked, import_clicked, load_clicked, replied, load_replied, db_step, db_run,
}

-- One request while the button is disabled, and else none.
abbrev pub IsWaiting : DbPage → Type 0
IsWaiting p = p.loads ≡ (if p.load_disabled then 1 else 0)

db_reply-IsWaiting : (r : DbReply) (p : DbPage) → IsWaiting p → IsWaiting (db_reply r p)
unfolding db_reply
db_reply-IsWaiting downloaded p h = h
db_reply-IsWaiting (download_refused r) p h = h
db_reply-IsWaiting (backed_up path) p h = h
db_reply-IsWaiting (backup_refused r) p h = h
db_reply-IsWaiting (uploaded n failed) p h = h
db_reply-IsWaiting (upload_refused r) p h = h
db_reply-IsWaiting (imported jobs segments parts) p h = h
db_reply-IsWaiting (import_refused r) p h = h

one_less-waiting : (b : Bool) (n : ℕ) → n ≡ (if b then 1 else 0) → one_less n ≡ 0
one_less-waiting true n h = rw h refl
one_less-waiting false n h = rw h refl

start_load-IsWaiting :
    (chosen : Bool) (p : DbPage)
    → p.load_disabled ≡ false
    → IsWaiting p
    → IsWaiting (start_load chosen p)
unfolding start_load
start_load-IsWaiting true p e h = rw (h, e) refl
start_load-IsWaiting false p e h = h

db_step-IsWaiting : (p : DbPage) (e : DbEvent) → IsWaiting p → IsWaiting (db_step p e)
unfolding db_step start_export start_backup start_telegram start_import load_reply
db_step-IsWaiting p export_clicked h = h
db_step-IsWaiting p backup_clicked h = h
db_step-IsWaiting p telegram_clicked h = h
db_step-IsWaiting p (import_clicked true) h = h
db_step-IsWaiting p (import_clicked false) h = h
db_step-IsWaiting p (load_clicked chosen) h =
    if_elim IsWaiting p.load_disabled _ _ (λ _. h) (λ e. start_load-IsWaiting chosen p e h)
db_step-IsWaiting p (replied r) h = db_reply-IsWaiting r p h
db_step-IsWaiting p (load_replied r) h = one_less-waiting p.load_disabled p.loads h

-- Whatever is clicked and whatever replies come, at most one request to load a database waits, and the button
-- is disabled exactly while it does, if it is so at the start.
pub db_run-IsWaiting : (p : DbPage) (es : List DbEvent) → IsWaiting p → IsWaiting (db_run p es)
unfolding db_run
db_run-IsWaiting p [] h = h
db_run-IsWaiting p (e ∷ es) h = db_run-IsWaiting (db_step p e) es (db_step-IsWaiting p e h)
