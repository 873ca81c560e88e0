-- ===== src/Shadow/Writer.antt =====
-- Incremental writes: `sync_page_to_shadow`, `delete_shadow_page_by_file_path` and
-- `record_shadow_sync_failure` (src/shadow/sync.py), on a connection that `open_shadow_db`
-- (src/shadow/connection.py) opens with the schema applied.
use matryca_plumber.Prelude.{Bool, false, ◌&&◌, not, Option, none, some, [], if◌then◌else◌}
use matryca_plumber.Prelude.Text.{Text, text_eq}
use matryca_plumber.Prelude.Decimal.{str}
use matryca_plumber.Graph.PagePath.{is_markdown}
use matryca_plumber.Shadow.Database.{Db, shadow_schema_version}
use matryca_plumber.Shadow.Key
use matryca_plumber.Shadow.Meta.{get_meta, set_meta, ensure_meta_defaults}
use matryca_plumber.Shadow.Errors.{SyncError, shadow_page_parse_error}
use matryca_plumber.Shadow.Quarantine.{clear_quarantined_page}
use matryca_plumber.Shadow.Runtime.{is_shadow_bootstrapping, defer_sync_path}
use matryca_plumber.Shadow.Process.{Process, Surroundings}
use matryca_plumber.Shadow.SyncFailure.{mark_shadow_sync_failed, shadow_sync_failure_reason}
use matryca_plumber.Shadow.Tables.{delete_pages, at_path}
use matryca_plumber.Shadow.Sync.{Graph, Result, ok, err, sync_page_into_connection}

-- `apply_shadow_schema`: `CREATE TABLE IF NOT EXISTS` and the seed of the version.
abbrev pub created : Option Db → Db
created none = record { shadow_meta = []; pages = []; blocks = []; quarantined_pages = some [] }
created (some db) = db

unfoldable pub with_quarantine_table : Db → Db
with_quarantine_table db = elim db.quarantined_pages [
  | none ↦ record db { quarantined_pages = some [] }
  | some _ ↦ db
]

unfoldable pub seeded : Db → Db
seeded db = elim (get_meta Key.schema_version db) [
  | none ↦ set_meta Key.schema_version (str shadow_schema_version) db
  | some _ ↦ db
]

-- The database behind a connection of `open_shadow_db`, and on disk after it.
unfoldable pub open_shadow_db : Option Db → Db
unfolding with_quarantine_table seeded
open_shadow_db file = seeded (with_quarantine_table (created file))

-- The exceptions by which an operation ends early: of synchronisation, or of the surroundings.
pub data Raised : Type 0 where
  sync_raised : SyncError → Raised
  io_raised : Raised

-- The persisted reason; whatever fails here is logged and dropped.
unfoldable pub persist_error : Surroundings → Text → Process → Process
persist_error io message p =
    if io.writer_opens
    then (let db = open_shadow_db p.database in
        record p {
          database = some (
              if io.writes_succeed
              then set_meta Key.last_sync_error message (ensure_meta_defaults db)
              else db);
        })
    else p

unfoldable pub record_shadow_sync_failure : Surroundings → Text → Text → Process → Process
unfolding persist_error
record_shadow_sync_failure io root message p =
    persist_error io message (mark_shadow_sync_failed io root p)

-- `str(exc)` of a parse error, and the default reason of the others.
unfoldable pub failure_message : Raised → Text
failure_message (sync_raised (shadow_page_parse_error message)) = message
failure_message _ = shadow_sync_failure_reason

-- A transaction: committed as a whole, or rolled back.
unfoldable pub committed : Surroundings → Result (Bool × Db) → Process → Process × Option Raised
committed io (err e) p = (p, some (sync_raised e))
committed io (ok (present, db)) p =
    if io.writes_succeed
    then (record p { database = some (set_meta Key.last_incremental_sync_at io.now db) }, none)
    else (p, some io_raised)

-- An exception invalidates reads before it leaves.
unfoldable pub recorded : Surroundings → Text → Process × Option Raised → Process × Option Raised
recorded io root (p, none) = (p, none)
recorded io root (p, some problem) =
    (record_shadow_sync_failure io root (failure_message problem) p, some problem)

abbrev pub opened : Process → Process
opened p = record p { database = some (open_shadow_db p.database) }

-- The transaction of one page, if lock and connection are had.
unfoldable pub write_page : Surroundings → Graph → Text → Process → Process × Option Raised
write_page io graph rel p =
    if io.lock_taken && io.writer_opens
    then committed io
        (sync_page_into_connection io.shadow_quarantine_enabled graph io.now rel
          (open_shadow_db p.database))
        (opened p)
    else (p, some io_raised)

unfoldable pub sync_page_to_shadow :
    Surroundings → Graph → Text → Text → Process → Process × Option Raised
unfolding write_page committed recorded
sync_page_to_shadow io graph root rel p =
    if not io.shadow_db_enabled
    then (p, none)
    else if not (is_markdown rel)
    then (p, none)
    else if is_shadow_bootstrapping root p.runtime
    then (record p { runtime = defer_sync_path root rel p.runtime }, none)
    else recorded io root (write_page io graph rel p)

unfoldable pub erase_page : Surroundings → Text → Process → Process × Option Raised
erase_page io rel p =
    if io.lock_taken && io.writer_opens
    then committed io
        (ok (
          false,
          clear_quarantined_page rel (delete_pages (at_path rel) (open_shadow_db p.database)),
        ))
        (opened p)
    else (p, some io_raised)

unfoldable pub delete_shadow_page_by_file_path :
    Surroundings → Text → Text → Process → Process × Option Raised
unfolding erase_page committed recorded
delete_shadow_page_by_file_path io root rel p =
    if not io.shadow_db_enabled then (p, none) else recorded io root (erase_page io rel p)
