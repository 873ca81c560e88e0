-- ===== src/Shadow/Samples.antt =====
-- One small graph for the tests: a page that parses and a page that does not.
use matryca_plumber.Prelude.{true, false, none, some, List, [], ◌∷◌}
use matryca_plumber.Prelude.Text.{Text, text}
use matryca_plumber.Shadow.Database.{Db, PageRow}
use matryca_plumber.Shadow.Key
use matryca_plumber.Shadow.Outline.{node, nil, cons, parsed, failed, SourceFile, NodeFields}
use matryca_plumber.Shadow.Runtime.{initial}
use matryca_plumber.Shadow.Process.{Process, Marker, Surroundings, Opening}
use matryca_plumber.Shadow.Sync.{Graph}

abbrev pub root : Text
root = text "g"

abbrev pub path_a : Text
path_a = text "pages/a.md"

abbrev pub path_b : Text
path_b = text "pages/b.md"

abbrev pub block_fields : NodeFields
block_fields = record {
  id_property = none;
  source_uuid = none;
  uuid = text "u1";
  indent_level = 0;
  content = text "hello";
  properties_json = text "{}";
}

abbrev pub file_a : SourceFile
file_a = record {
  mtime_ns = 5;
  size = 7;
  parse_result =
      parsed
        (record { properties_json = text "{}"; root_nodes = cons (node block_fields nil) nil });
}

abbrev pub file_b : SourceFile
file_b = record { mtime_ns = 5; size = 7; parse_result = failed none }

abbrev pub graph : Graph
graph = (path_a, file_a) ∷ (path_b, file_b) ∷ []

abbrev pub paths : List Text
paths = path_a ∷ path_b ∷ []

abbrev pub io : Surroundings
io = record {
  shadow_db_enabled = true;
  shadow_quarantine_enabled = true;
  cache_located = true;
  marker_writes = true;
  marker_unlinks = true;
  query_only = Opening.granted;
  lock_taken = true;
  writer_opens = true;
  writes_succeed = true;
  now = text "t";
}

-- No database yet, and the marker of a failure.
abbrev pub start : Process
start = record { runtime = initial; marker = Marker.regular; database = none }

-- Surroundings in which commits fail, no connection opens, or the lock is held elsewhere.
abbrev pub full_disk : Surroundings
full_disk = record io { writes_succeed = false }

abbrev pub no_connection : Surroundings
no_connection = record io { writer_opens = false }

abbrev pub locked_out : Surroundings
locked_out = record io { lock_taken = false }

abbrev pub row_a : PageRow
row_a = record {
  page_id = 1;
  title = text "a";
  file_path = path_a;
  file_mtime_ns = 5;
  file_size = 7;
  is_journal = false;
  properties_json = text "{}";
  synced_at = text "t";
}

-- A database after a rebuild with one page.
abbrev pub stored : Db
stored = record {
  shadow_meta =
      (Key.schema_version, text "1")
      ∷ (Key.last_full_sync_completed, text "true")
      ∷ (Key.source_page_count, text "1")
      ∷ (Key.indexed_page_count, text "1")
      ∷ (Key.last_sync_error, [])
      ∷ [];
  pages = row_a ∷ [];
  blocks = [];
  quarantined_pages = some [];
}

abbrev pub running : Process
running = record { runtime = initial; marker = Marker.absent; database = some stored }
