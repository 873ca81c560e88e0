-- ===== src/Shadow/FailureTests.antt =====
-- The theorems on failed writes, drift and messages at the sample graph.
use matryca_plumber.Prelude.{◌≡◌, ◌≢◌, refl, Bool, true, false, some, [], ◌∷◌}
use matryca_plumber.Prelude.Text.{Text, text, text_eq}
use matryca_plumber.Prelude.Decimal.{str}
use matryca_plumber.Prelude.Sort.{sorted}
use matryca_plumber.Prelude.Dict
use matryca_plumber.Graph.PagePath.{is_markdown, page_title_from_graph_relpath}
use matryca_plumber.Shadow.Database.{Db}
use matryca_plumber.Shadow.Key
use matryca_plumber.Shadow.Meta.{get_meta}
use matryca_plumber.Shadow.Runtime.{is_shadow_bootstrapping, is_shadow_generation_invalid}
use matryca_plumber.Shadow.Outline.{walk_blocks}
use matryca_plumber.Shadow.Tables.{
  owners, insert_block, insert_page, delete_pages, next_id, blocks_of,
}
use matryca_plumber.Shadow.Quarantine.{clear_quarantined_page}
use matryca_plumber.Shadow.SyncFailure.{is_shadow_sync_failed, restart}
use matryca_plumber.Shadow.Health.{HealthState, returns, resolve_shadow_health, database_health}
use matryca_plumber.Shadow.Sync.{
  Graph, Result, ok, err, sync_page_into_connection, sync_file, upsert_page, preflight_block_uuids,
  seen_on_page, stale_owners, insert_blocks, delete_paths, is_file,
}
use matryca_plumber.Shadow.Writer.{
  io_raised, open_shadow_db, record_shadow_sync_failure, sync_page_to_shadow,
  delete_shadow_page_by_file_path,
}
use matryca_plumber.Shadow.Bootstrap.{database_needs_bootstrap}
use matryca_plumber.Shadow.FailClosed.{
  SameRows, sync-not_ready, delete-not_ready, restart-not_ready, sync-atomic,
}
use matryca_plumber.Shadow.Rebuild.Tally.{Tally, IsFresh}
use matryca_plumber.Shadow.Drift.{IsComplete, committed_at, new_page-stale}
use matryca_plumber.Shadow.Samples.{
  root, path_a, graph, file_a, io, start, full_disk, locked_out, stored, running,
}

full_disk_sync : (sync_page_to_shadow full_disk graph root path_a running).1 ≡ some io_raised
unfolding sync_page_to_shadow is_markdown is_shadow_bootstrapping sync_page_into_connection Dict.get
    sync_file upsert_page preflight_block_uuids walk_blocks seen_on_page stale_owners owners
    clear_quarantined_page insert_blocks insert_block insert_page next_id delete_pages
    page_title_from_graph_relpath blocks_of delete_paths sorted open_shadow_db get_meta
full_disk_sync = refl

sync-not_ready_example :
    resolve_shadow_health io root (sync_page_to_shadow full_disk graph root path_a running).0
    ≢ returns HealthState.ready
sync-not_ready_example =
    sync-not_ready full_disk io graph root path_a running io_raised full_disk_sync

sync-atomic_example : SameRows running (sync_page_to_shadow full_disk graph root path_a running).0
sync-atomic_example = sync-atomic full_disk graph root path_a running io_raised full_disk_sync

locked_out_delete :
    (delete_shadow_page_by_file_path locked_out root path_a running).1 ≡ some io_raised
unfolding delete_shadow_page_by_file_path
locked_out_delete = refl

delete-not_ready_example :
    resolve_shadow_health io root (delete_shadow_page_by_file_path locked_out root path_a running).0
    ≢ returns HealthState.ready
delete-not_ready_example =
    delete-not_ready locked_out io root path_a running io_raised locked_out_delete

restart-not_ready_example :
    resolve_shadow_health io root
      (restart (record_shadow_sync_failure locked_out root (text "disk") running))
    ≢ returns HealthState.ready
restart-not_ready_example =
    restart-not_ready locked_out io root (text "disk") running refl refl refl

start_failed : is_shadow_sync_failed io root start ≡ true
unfolding is_shadow_sync_failed is_shadow_generation_invalid
start_failed = refl

stored-IsComplete : IsComplete stored
unfolding get_meta Dict.get str
stored-IsComplete = record { schema = refl; no_error = refl; full_sync = refl }

abbrev path_c : Text
path_c = text "pages/c.md"

abbrev grown : Graph
grown = (path_a, file_a) ∷ (path_c, file_a) ∷ []

abbrev db_of : Result (Bool × Db) → Db
db_of (ok (present, db)) = db
db_of (err e) = stored

abbrev with_c : Db
with_c = db_of (sync_page_into_connection true grown (text "t") path_c stored)

stored_indexed : get_meta Key.indexed_page_count stored ≡ some (str 1)
unfolding get_meta Dict.get str
stored_indexed = refl

stored-Tally : Tally grown (path_a ∷ []) 1 stored
unfolding Dict.get page_title_from_graph_relpath Dict.keys
stored-Tally = record {
  counted = refl;
  accounted = refl;
  known = (record { handled = refl; titled = refl; on_disk = refl }, tt);
  parked = tt;
  tabled = refl;
}

c-IsFresh : IsFresh (path_a ∷ []) path_c
unfolding page_title_from_graph_relpath
c-IsFresh = record { new_path = refl; new_title = refl }

c_is_file : (is_file grown path_c ≡ true) × (is_markdown path_c ≡ true)
unfolding Dict.get is_markdown
c_is_file = (refl, refl)

c_synced : sync_page_into_connection true grown (text "t") path_c stored ≡ ok (true, with_c)
unfolding is_markdown sync_page_into_connection Dict.get sync_file upsert_page preflight_block_uuids
    walk_blocks seen_on_page stale_owners owners clear_quarantined_page insert_blocks insert_block
    insert_page next_id delete_pages page_title_from_graph_relpath blocks_of delete_paths sorted
c_synced = refl

new_page-stale_example :
    (database_health (committed_at (text "t") with_c) ≡ returns HealthState.stale)
    × (database_needs_bootstrap (committed_at (text "t") with_c) ≡ false)
new_page-stale_example =
    new_page-stale true grown (text "t") (path_a ∷ []) path_c 1 stored with_c stored-IsComplete
      stored_indexed stored-Tally c-IsFresh c_is_file.0 c_is_file.1 c_synced
