-- ===== src/Shadow/CollisionTests.antt =====
-- A page and a journal of one name have one title, and a rebuild counts both and keeps one row.
use matryca_plumber.Prelude.{ℕ, ◌≡◌, refl, true, Option, none, some, List, [], ◌∷◌, length}
use matryca_plumber.Prelude.Text.{Text, text, text_eq}
use matryca_plumber.Prelude.Dict
use matryca_plumber.Graph.PagePath.{is_markdown, page_title_from_graph_relpath}
use matryca_plumber.Shadow.Outline.{parsed, nil, SourceFile, walk_blocks}
use matryca_plumber.Shadow.Tables.{insert_page, delete_pages, next_id}
use matryca_plumber.Shadow.Database.{Db}
use matryca_plumber.Shadow.Quarantine.{clear_quarantined_page}
use matryca_plumber.Shadow.Sync.{
  Graph, Result, ok, err, sync_page_into_connection, sync_file, upsert_page, preflight_block_uuids,
  insert_blocks, page_row,
}
use matryca_plumber.Shadow.Bootstrap.{index_pages}

abbrev empty_file : SourceFile
empty_file = record {
  mtime_ns = 5;
  size = 0;
  parse_result = parsed (record { properties_json = text "{}"; root_nodes = nil });
}

abbrev paths : List Text
paths = text "journals/x.md" ∷ text "pages/x.md" ∷ []

abbrev graph : Graph
graph = (text "journals/x.md", empty_file) ∷ (text "pages/x.md", empty_file) ∷ []

abbrev no_rows : Db
no_rows = record { shadow_meta = []; pages = []; blocks = []; quarantined_pages = some [] }

abbrev counts : Result (ℕ × Db) → Option (ℕ × ℕ)
counts (ok (indexed, db)) = some (indexed, length db.pages)
counts (err e) = none

two_counted_one_kept : counts (index_pages true graph (text "t") paths 0 no_rows) ≡ some (2, 1)
unfolding index_pages sync_page_into_connection is_markdown Dict.get sync_file upsert_page
    preflight_block_uuids walk_blocks clear_quarantined_page insert_blocks insert_page next_id
    delete_pages page_title_from_graph_relpath page_row
two_counted_one_kept = refl
