-- ===== src/Shadow/Tests.antt =====
-- The theorems on a rebuild at the sample graph.
use matryca_plumber.Prelude.{◌≡◌, [], refl, true, none, []}
use matryca_plumber.Prelude.Text.{text_eq}
use matryca_plumber.Prelude.Dict
use matryca_plumber.Prelude.Sort.{sorted}
use matryca_plumber.Graph.PagePath.{is_markdown, page_title_from_graph_relpath}
use matryca_plumber.Shadow.Outline.{walk_blocks}
use matryca_plumber.Shadow.Tables.{
  owners, insert_block, insert_page, delete_pages, next_id, blocks_of,
}
use matryca_plumber.Shadow.Quarantine.{clear_quarantined_page}
use matryca_plumber.Shadow.Health.{HealthState, returns, resolve_shadow_health}
use matryca_plumber.Shadow.Sync.{
  sync_page_into_connection, sync_file, upsert_page, preflight_block_uuids, seen_on_page,
  stale_owners, insert_blocks, delete_paths,
}
use matryca_plumber.Shadow.Bootstrap.{
  rebuild_shadow_from_graph, rebuild_transaction, rebuilt, index_pages, emptied,
}
use matryca_plumber.Shadow.Rebuild.Steps.{IsListing}
use matryca_plumber.Shadow.Rebuild.Served.{HasNoDeferred, rebuild-ready}
use matryca_plumber.Shadow.Rebuild.Raising.{unopened-stuck}
use matryca_plumber.Shadow.Process.{Process}
use matryca_plumber.Shadow.Runtime.{defer_sync_path}
use matryca_plumber.Shadow.Writer.{sync_page_to_shadow}
use matryca_plumber.Shadow.Samples.{root, path_a, graph, paths, io, start, full_disk, no_connection}

listing : IsListing graph [] paths
unfolding is_markdown Dict.get page_title_from_graph_relpath
listing = (
  refl,
  refl,
  record { new_path = refl; new_title = refl },
  (refl, refl, record { new_path = refl; new_title = refl }, tt),
)

no_deferred : HasNoDeferred root start
unfolding Dict.get
no_deferred = refl

quiet : (rebuild_shadow_from_graph io graph paths [] root start).1 ≡ none
unfolding rebuild_shadow_from_graph rebuild_transaction rebuilt index_pages
    sync_page_into_connection is_markdown Dict.get sync_file upsert_page preflight_block_uuids
    walk_blocks seen_on_page stale_owners owners clear_quarantined_page emptied insert_blocks
    insert_block insert_page next_id delete_pages page_title_from_graph_relpath blocks_of
    delete_paths sorted
quiet = refl

rebuild-ready_example :
    resolve_shadow_health io root (rebuild_shadow_from_graph io graph paths [] root start).0
    ≡ returns HealthState.ready
rebuild-ready_example =
    rebuild-ready io graph root paths start refl refl refl refl refl refl no_deferred listing quiet

-- The rebuild raises while both paths are deferred.
abbrev full_disk_end : Process
full_disk_end = (rebuild_shadow_from_graph full_disk graph paths paths root start).0

a_is_markdown : is_markdown path_a ≡ true
unfolding is_markdown
a_is_markdown = refl

abbrev stuck : Process
stuck = (rebuild_shadow_from_graph no_connection graph paths [] root start).0

unopened-stuck_example :
    (resolve_shadow_health io root stuck ≡ returns HealthState.bootstrapping)
    × (sync_page_to_shadow io graph root path_a stuck
        ≡ (record stuck { runtime = defer_sync_path root path_a stuck.runtime }, none))
unopened-stuck_example =
    unopened-stuck no_connection graph root io paths [] path_a start refl refl refl refl
      a_is_markdown
