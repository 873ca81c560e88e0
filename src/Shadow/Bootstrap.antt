-- ===== src/Shadow/Bootstrap.antt =====
-- The full rebuild and the reaction to external edits (src/shadow/bootstrap.py). The rebuild holds
-- its locks throughout, so that no other writer changes the database meanwhile; a change that is
-- synchronised meanwhile takes no lock and defers its path. `source_paths` is the listing of the
-- graph's Markdown files, `graph` what is read when each is parsed, and `arriving` the paths that
-- other threads defer between the mark and its removal.
use matryca_plumber.Prelude.{
  ℕ, ◌+◌, Bool, true, false, not, Option, none, some, List, [], ◌∷◌, option_beq, length,
  if◌then◌else◌,
}
use matryca_plumber.Prelude.Text.{Text, text, text_eq, is_empty}
use matryca_plumber.Prelude.Decimal.{str}
use matryca_plumber.Graph.PagePath.{is_markdown}
use matryca_plumber.Shadow.Database.{Db, shadow_schema_version}
use matryca_plumber.Shadow.Key
use matryca_plumber.Shadow.Meta.{get_meta, set_meta, ensure_meta_defaults, bump_generation}
use matryca_plumber.Shadow.Errors.{shadow_page_parse_error, shadow_sync_error}
use matryca_plumber.Shadow.Quarantine.{quarantined_page_count}
use matryca_plumber.Shadow.Runtime.{
  is_shadow_bootstrapping, mark_bootstrapping, clear_bootstrapping, pop_deferred_sync_paths,
  defer_sync_path,
}
use matryca_plumber.Shadow.Process.{Process, Surroundings}
use matryca_plumber.Shadow.SyncFailure.{
  clear_shadow_sync_failed, is_shadow_sync_failed, shadow_sync_failure_reason,
}
use matryca_plumber.Shadow.Health.{stripped_meta, full_sync_completed}
use matryca_plumber.Shadow.Sync.{Graph, Result, ok, err, ◌>>=◌, sync_page_into_connection}
use matryca_plumber.Shadow.Writer.{
  open_shadow_db, Raised, sync_raised, io_raised, sync_page_to_shadow,
  delete_shadow_page_by_file_path, record_shadow_sync_failure,
}

-- What an opened database lacks for reads to be served.
unfoldable pub database_needs_bootstrap : Db → Bool
database_needs_bootstrap db =
    if not (option_beq (get_meta Key.schema_version db) (some (str shadow_schema_version)))
    then true
    else if not (is_empty (stripped_meta Key.last_sync_error db))
    then true
    else not (full_sync_completed db)

unfoldable pub file_needs_bootstrap : Option Db → Bool
file_needs_bootstrap none = true
file_needs_bootstrap (some db) = database_needs_bootstrap (open_shadow_db (some db))

-- For surroundings in which the cache is located and opens.
unfoldable pub shadow_needs_bootstrap : Surroundings → Text → Process → Bool
shadow_needs_bootstrap io root p =
    if is_shadow_sync_failed io root p then true else file_needs_bootstrap p.database

-- The start of the transaction: metadata reset, both tables emptied.
unfoldable pub emptied : Db → Db
emptied db =
    let reset =
      set_meta Key.last_sync_error []
        (set_meta Key.last_full_sync_completed (text "false") (ensure_meta_defaults db)) in
    record reset { pages = []; blocks = []; quarantined_pages = some [] }

abbrev pub count_if : Bool → ℕ → ℕ
count_if true n = n + 1
count_if false n = n

-- The loop over the source paths; `indexed` counts the pages that are present.
unfoldable pub index_pages : Bool → Graph → Text → List Text → ℕ → Db → Result (ℕ × Db)
index_pages quarantine graph now [] indexed db = ok (indexed, db)
index_pages quarantine graph now (rel ∷ more) indexed db =
    sync_page_into_connection quarantine graph now rel db >>= λ (present, db').
    index_pages quarantine graph now more (count_if present indexed) db'

-- The metadata of a complete rebuild, in the order of the source.
unfoldable pub completed : Text → ℕ → ℕ → Db → Db
completed synced_at source_count indexed db =
    let quarantined = quarantined_page_count db in
    let bumped = (bump_generation db).0 in
    let synced = set_meta Key.last_full_sync_at synced_at bumped in
    let done = set_meta Key.last_full_sync_completed (text "true") synced in
    let sourced = set_meta Key.source_page_count (str source_count) done in
    let counted = set_meta Key.indexed_page_count (str indexed) sourced in
    let parked = set_meta Key.quarantined_page_count (str quarantined) counted in
    set_meta Key.last_sync_error [] parked

-- The contents that the transaction would commit.
unfoldable pub rebuilt : Bool → Graph → Text → List Text → Db → Result Db
rebuilt quarantine graph now source_paths db =
    index_pages quarantine graph now source_paths 0 (emptied db) >>= λ (indexed, db').
    ok (completed now (length source_paths) indexed db')

-- The message of the error: that of a `ShadowSyncError`, or a constant.
unfoldable pub rebuild_message : Raised → Text
rebuild_message (sync_raised (shadow_page_parse_error message)) = message
rebuild_message (sync_raised (shadow_sync_error message)) = message
rebuild_message _ = text "full rebuild failed"

-- `_record_rebuild_error`, on the rolled back database. The source opens it again outside any
-- handler; the surroundings open it as they did before.
unfoldable pub record_rebuild_error : Surroundings → Text → Process → Process
record_rebuild_error io message p =
    let db = open_shadow_db p.database in
    record p {
      database = some (
          if io.writes_succeed
          then set_meta Key.last_sync_error message (ensure_meta_defaults db)
          else db);
    }

-- The transaction of the rebuild, over an open connection.
unfoldable pub rebuild_transaction :
    Surroundings → Text → Result Db → Process → Process × Option Raised
unfolding record_rebuild_error
rebuild_transaction io root (err e) p =
    (record_rebuild_error io (rebuild_message (sync_raised e)) p, some (sync_raised e))
rebuild_transaction io root (ok db) p =
    if io.writes_succeed
    then ((clear_shadow_sync_failed io root (record p { database = some db })).0, none)
    else (record_rebuild_error io (rebuild_message io_raised) p, some io_raised)

-- The deferred paths, one by one; what one raises is logged and dropped.
unfoldable pub replay_paths : Surroundings → Graph → Text → List Text → Process → Process
replay_paths io graph root [] p = p
replay_paths io graph root (rel ∷ more) p =
    replay_paths io graph root more (sync_page_to_shadow io graph root rel p).0

unfoldable pub replay_deferred_syncs : Surroundings → Graph → Text → Process → Process
replay_deferred_syncs io graph root p =
    let (paths, runtime) = pop_deferred_sync_paths root p.runtime in
    replay_paths io graph root paths (record p { runtime = runtime })

-- The `finally` block.
unfoldable pub finished : Surroundings → Graph → Text → Process → Process
finished io graph root p =
    replay_deferred_syncs io graph root (record p { runtime = clear_bootstrapping root p.runtime })

-- What `sync_page_to_shadow` of other threads leaves while the mark stands.
unfoldable pub defer_paths : Text → List Text → Process → Process
defer_paths root [] p = p
defer_paths root (rel ∷ more) p =
    defer_paths root more (record p { runtime = defer_sync_path root rel p.runtime })

-- `open_shadow_db` stands before the `try`: if it raises, the mark stays, and a change after that is
-- a step of its own.
unfoldable pub rebuild_shadow_from_graph :
    Surroundings → Graph → List Text → List Text → Text → Process → Process × Option Raised
rebuild_shadow_from_graph io graph source_paths arriving root p =
    let marked = record p { runtime = mark_bootstrapping root p.runtime } in
    let db = open_shadow_db p.database in
    let (after, raised) =
      rebuild_transaction io root
        (rebuilt io.shadow_quarantine_enabled graph io.now source_paths db)
        (record marked { database = some db }) in
    if not io.shadow_db_enabled
    then (p, none)
    else if not io.lock_taken
    then (p, some io_raised)
    else if io.writer_opens
    then (finished io graph root (defer_paths root arriving after), raised)
    else (marked, some io_raised)

pub data FileEventKind : Type 0 where
  created modified deleted : FileEventKind

-- What an edit raises is logged; all but a parse error is recorded once more.
dropped : Surroundings → Text → Process × Option Raised → Process
dropped io root (p, none) = p
dropped io root (p, some (sync_raised (shadow_page_parse_error message))) = p
dropped io root (p, some _) = record_shadow_sync_failure io root shadow_sync_failure_reason p

edited : Surroundings → Graph → Text → Text → FileEventKind → Process → Process × Option Raised
edited io graph root rel deleted p = delete_shadow_page_by_file_path io root rel p
edited io graph root rel _ p = sync_page_to_shadow io graph root rel p

-- A debounced external edit of the file at `rel`.
unfoldable pub handle_shadow_watchdog_change :
    Surroundings → Graph → Text → Text → FileEventKind → Process → Process
unfolding dropped edited
handle_shadow_watchdog_change io graph root rel kind p =
    if not io.shadow_db_enabled
    then p
    else if not (is_markdown rel)
    then p
    else if is_shadow_bootstrapping root p.runtime
    then record p { runtime = defer_sync_path root rel p.runtime }
    else dropped io root (edited io graph root rel kind p)
