-- ===== src/Shadow/Drift.antt =====
-- Where the recorded counts and the tables come apart: an incremental synchronisation after a
-- rebuild.
use matryca_plumber.Prelude.{
  ℕ, ◌+◌, ◌≡◌, refl, sym, ap, ◌∙◌, Bool, true, false, some, List, [], ◌==◌, length, arith, ==_refl,
  subst,
}
use matryca_plumber.Prelude.Text.{Text, text, text_eq, strip, lower}
use matryca_plumber.Prelude.Decimal.{str}
use matryca_plumber.Prelude.Dict
use matryca_plumber.Graph.PagePath.{is_markdown}
use matryca_plumber.Shadow.Database.{Db, shadow_schema_version}
use matryca_plumber.Shadow.Key
use matryca_plumber.Shadow.Meta.{get_meta, set_meta, get_meta-set_meta}
use matryca_plumber.Shadow.Quarantine.{quarantine_rows}
use matryca_plumber.Shadow.Health.{
  stale, returns, full_sync_completed, count_health, shadow_meta_matches_page_rows, database_health,
}
use matryca_plumber.Shadow.Sync.{Graph, is_file, ok, sync_page_into_connection}
use matryca_plumber.Shadow.Bootstrap.{database_needs_bootstrap}
use matryca_plumber.Shadow.Rebuild.Tally.{Tally, IsFresh}
use matryca_plumber.Shadow.Rebuild.Steps.{sync_advances}
use matryca_plumber.Shadow.Rebuild.Ready.{parse_meta_page_count-str}

-- The checks of a database before its counts: the schema, the last error, the completed rebuild.
pub record IsComplete (db : Db) : Type 0 where
  pub schema : get_meta Key.schema_version db ≡ some (str shadow_schema_version)
  pub no_error : get_meta Key.last_sync_error db ≡ some []
  pub full_sync : get_meta Key.last_full_sync_completed db ≡ some (text "true")

full_sync_complete : (db : Db) → IsComplete db → full_sync_completed db ≡ true
unfolding full_sync_completed strip lower
full_sync_complete db c = rw c.full_sync

-- The database that a committed synchronisation of the page leaves.
abbrev pub committed_at : Text → Db → Db
committed_at now db = set_meta Key.last_incremental_sync_at now db

later_meta :
    (now key : Text) (db db' : Db)
    → (Key.last_incremental_sync_at == key) ≡ false
    → db'.shadow_meta ≡ db.shadow_meta
    → get_meta key (committed_at now db') ≡ get_meta key db
unfolding get_meta
later_meta now key db db' other same =
    get_meta-set_meta Key.last_incremental_sync_at key now db' ∙ simp other (ap (Dict.get key) same)

IsComplete-later :
    (now : Text) (db db' : Db)
    → IsComplete db
    → db'.shadow_meta ≡ db.shadow_meta
    → IsComplete (committed_at now db')
IsComplete-later now db db' c same = record {
  schema = later_meta now _ db db' refl same ∙ c.schema;
  no_error = later_meta now _ db db' refl same ∙ c.no_error;
  full_sync = later_meta now _ db db' refl same ∙ c.full_sync;
}

-- A recorded count of one page too few.
one_more-stale :
    (db : Db) (indexed : ℕ)
    → get_meta Key.indexed_page_count db ≡ some (str indexed)
    → length db.pages ≡ indexed + 1
    → db.quarantined_pages ≡ some (quarantine_rows db)
    → count_health db db.quarantined_pages ≡ returns stale
unfolding count_health shadow_meta_matches_page_rows
one_more-stale db indexed counted one_more table =
    subst (λ q. count_health db q ≡ returns stale) (sym table)
      (rw (counted, parse_meta_page_count-str indexed) (ground arith))

-- For a database that passes the checks, whose tables account for the handled paths and whose
-- recorded count of indexed pages is the number of its rows: after the synchronisation of a new
-- Markdown file that parses, health is STALE, and no rebuild is called for.
pub new_page-stale :
    (quarantine : Bool) (graph : Graph) (now : Text) (done : List Text) (rel : Text) (indexed : ℕ)
    (db db' : Db)
    → IsComplete db
    → get_meta Key.indexed_page_count db ≡ some (str indexed)
    → Tally graph done indexed db
    → IsFresh done rel
    → is_file graph rel ≡ true
    → is_markdown rel ≡ true
    → sync_page_into_connection quarantine graph now rel db ≡ ok (true, db')
    → (database_health (committed_at now db') ≡ returns stale)
      × (database_needs_bootstrap (committed_at now db') ≡ false)
unfolding database_health database_needs_bootstrap strip set_meta get_meta
new_page-stale quarantine graph now done rel indexed db db' c counted t fresh found markdown e =
    let (t', meta) =
      sync_advances graph done rel fresh found db t quarantine now (true, db') markdown e in
    let c' = IsComplete-later now db db' c meta in
    let full = full_sync_complete (committed_at now db') c' in
    (
      rw (c'.schema, ==_refl (str shadow_schema_version), c'.no_error, full)
          (one_more-stale (committed_at now db') indexed
            (later_meta now _ db db' refl meta ∙ counted) t'.counted t'.tabled),
      rw (c'.schema, ==_refl (str shadow_schema_version), c'.no_error, full) refl,
    )
