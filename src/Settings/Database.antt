-- ===== src/Settings/Database.antt =====
-- static/settings.js: the messages of the database's export, backup and import, and the load of a database. The
-- requests are the browser's; what is here is what the page shows before and after them.
pub mod Laws
use telegram_hls_streamer_v.Base.{
  ℕ, zero, suc, Bool, true, false, List, [], ◌∷◌, ◌++◌, if◌then◌else◌, ltb,
}
use telegram_hls_streamer_v.Base.Decimal.{CodeUnits, codes, show}
use telegram_hls_streamer_v.Shared.Text.{is_empty}

-- A message and its class.
pub data Kind : Type 0 where
  neutral : Kind
  ok : Kind
  error : Kind

pub record Message : Type 0 where
  pub text : CodeUnits
  pub kind : Kind

-- The page; `loads` are the requests of loadDatabaseFromFile without an answer.
pub record DbPage : Type 0 where
  pub export_status : Message
  pub import_status : Message
  pub load_status : Message
  pub load_disabled : Bool
  pub loads : ℕ

-- What a refusal says; a text that is missing is empty. A request that fails before gives its message alone.
pub record Refusal : Type 0 where
  pub message : CodeUnits
  pub refusal_error : CodeUnits

-- `d.message || d.error || text`.
unfoldable pub refusal_text : Refusal → CodeUnits → CodeUnits
refusal_text r text =
    if is_empty r.message
    then if is_empty r.refusal_error then text else r.refusal_error
    else r.message

abbrev pub set_export : CodeUnits → Kind → DbPage → DbPage
set_export t k p = record p { export_status = record { text = t; kind = k } }

abbrev pub set_import : CodeUnits → Kind → DbPage → DbPage
set_import t k p = record p { import_status = record { text = t; kind = k } }

abbrev pub set_load : CodeUnits → Kind → DbPage → DbPage
set_load t k p = record p { load_status = record { text = t; kind = k } }

-- The replies of the four requests and of the load.
pub data DbReply : Type 0 where
  downloaded : DbReply
  download_refused : Refusal → DbReply
  backed_up : CodeUnits → DbReply
  backup_refused : Refusal → DbReply
  uploaded : ℕ → ℕ → DbReply
  upload_refused : Refusal → DbReply
  imported : ℕ → ℕ → ℕ → DbReply
  import_refused : Refusal → DbReply

abbrev pub failed_part : ℕ → CodeUnits
failed_part failed = if ltb 0 failed then codes "; " ++ show failed ++ codes " failed" else []

abbrev pub uploaded_text : ℕ → ℕ → CodeUnits
uploaded_text n failed =
    codes "Uploaded snapshot to "
    ++ show n
    ++ codes " bot file(s)"
    ++ failed_part failed
    ++ codes "."

abbrev pub imported_text : ℕ → ℕ → ℕ → CodeUnits
imported_text jobs segments parts =
    codes "Imported "
    ++ show jobs
    ++ codes " jobs, "
    ++ show segments
    ++ codes " segments, and "
    ++ show parts
    ++ codes " segment parts."

unfoldable pub db_reply : DbReply → DbPage → DbPage
db_reply downloaded p = set_export (codes "Export downloaded.") ok p
db_reply (download_refused r) p = set_export (refusal_text r (codes "Export failed")) error p
db_reply (backed_up path) p = set_export (codes "Backup saved at " ++ path) ok p
db_reply (backup_refused r) p = set_export (refusal_text r (codes "Backup failed")) error p
db_reply (uploaded n failed) p =
    set_export (uploaded_text n failed) (if ltb 0 failed then error else ok) p
db_reply (upload_refused r) p = set_export (refusal_text r (codes "Export failed")) error p
db_reply (imported jobs segments parts) p = set_import (imported_text jobs segments parts) ok p
db_reply (import_refused r) p = set_import (refusal_text r (codes "Import failed")) error p

-- The starts: a download, a backup, an upload; an import with or without a chosen file.
unfoldable pub start_export : DbPage → DbPage
start_export p = set_export (codes "Preparing…") neutral p

unfoldable pub start_backup : DbPage → DbPage
start_backup p = set_export (codes "Creating backup…") neutral p

unfoldable pub start_telegram : DbPage → DbPage
start_telegram p = set_export (codes "Uploading…") neutral p

unfoldable pub start_import : Bool → DbPage → DbPage
start_import false p = set_import (codes "Choose a local database file first.") error p
start_import true p = set_import (codes "Importing…") neutral p

-- loadDatabaseFromFile, whose button is disabled while it waits; after a success it also loads the settings and the
-- bots again.
unfoldable pub start_load : Bool → DbPage → DbPage
start_load false p = set_load (codes "Choose a database file first.") error p
start_load true p =
    let q = set_load (codes "Loading database…") neutral p in
    record q { load_disabled = true; loads = suc q.loads }

pub data LoadReply : Type 0 where
  loaded : CodeUnits → LoadReply
  not_loaded : CodeUnits → LoadReply

-- The message of the reply; a path or a message that is missing is empty.
abbrev pub load_message : LoadReply → Message
load_message (loaded path) = record {
  text =
      codes "Loaded. Backup saved at "
      ++ (if is_empty path then codes "server backup path unavailable" else path)
      ++ codes ".";
  kind = ok;
}
load_message (not_loaded m) = record {
  text = if is_empty m then codes "Failed to load database" else m;
  kind = error;
}

abbrev pub one_less : ℕ → ℕ
one_less zero = zero
one_less (suc n) = n

unfoldable pub load_reply : LoadReply → DbPage → DbPage
load_reply r p = record p {
  load_status = load_message r;
  load_disabled = false;
  loads = one_less p.loads;
}

pub data DbEvent : Type 0 where
  export_clicked : DbEvent
  backup_clicked : DbEvent
  telegram_clicked : DbEvent
  import_clicked : Bool → DbEvent
  load_clicked : Bool → DbEvent
  replied : DbReply → DbEvent
  load_replied : LoadReply → DbEvent

-- A disabled button does not take the click.
unfoldable pub db_step : DbPage → DbEvent → DbPage
db_step p export_clicked = start_export p
db_step p backup_clicked = start_backup p
db_step p telegram_clicked = start_telegram p
db_step p (import_clicked chosen) = start_import chosen p
db_step p (load_clicked chosen) = let q = start_load chosen p in if p.load_disabled then p else q
db_step p (replied r) = db_reply r p
db_step p (load_replied r) = load_reply r p

unfoldable pub db_run : DbPage → List DbEvent → DbPage
db_run p [] = p
db_run p (e ∷ es) = db_run (db_step p e) es
