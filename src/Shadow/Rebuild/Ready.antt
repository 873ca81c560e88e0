-- ===== src/Shadow/Rebuild/Ready.antt =====
-- The health after a rebuild that raised nothing.
use matryca_plumber.Prelude.{
  ℕ, ◌+◌, ◌≡◌, refl, sym, ap, ◌∙◌, Bool, true, some, List, [], length, arith, nat_eq, subst,
  ==_refl,
}
use matryca_plumber.Prelude.Text.{Text, text, text_eq, strip, lower, strip-HasNoSpace}
use matryca_plumber.Prelude.Dict
use matryca_plumber.Prelude.Dict.{Dict}
use matryca_plumber.Prelude.Decimal.{str, int_of-str, HasNoSpace-str, is_empty-str}
use matryca_plumber.Shadow.Key
use matryca_plumber.Shadow.Database.{Db, QuarantineRow, shadow_schema_version}
use matryca_plumber.Shadow.Meta.{
  get_meta, set_meta, ensure_meta_defaults, bump_generation, get_meta-set_meta,
}
use matryca_plumber.Shadow.Quarantine.{quarantine_rows}
use matryca_plumber.Shadow.Health.{
  ready, returns, database_health, full_sync_completed, count_health, shadow_meta_matches_page_rows,
  parse_meta_page_count,
}
use matryca_plumber.Shadow.Bootstrap.{completed, emptied, rebuilt, index_pages}
use matryca_plumber.Shadow.Sync.{Graph, ok, ok_inj, >>=-ok}
use matryca_plumber.Shadow.Rebuild.Tally.{Tally}
use matryca_plumber.Shadow.Rebuild.Steps.{IsListing, index_pages-Tally}

pub parse_meta_page_count-str : (n : ℕ) → parse_meta_page_count (some (str n)) ≡ some n
unfolding parse_meta_page_count
parse_meta_page_count-str n =
    simp (strip-HasNoSpace (str n) (HasNoSpace-str n), is_empty-str, int_of-str)

-- Two counts that were recorded and are true.
counts_agree :
    (db : Db) (indexed sources : ℕ) (rows : Dict Text QuarantineRow)
    → get_meta Key.indexed_page_count db ≡ some (str indexed)
    → get_meta Key.source_page_count db ≡ some (str sources)
    → indexed ≡ length db.pages
    → length rows + indexed ≡ sources
    → count_health db (some rows) ≡ returns ready
unfolding count_health shadow_meta_matches_page_rows
counts_agree db indexed sources rows i s counted accounted =
    rw (i, s, parse_meta_page_count-str indexed, parse_meta_page_count-str sources) (ground arith)

module _ (now : Text) (sources indexed : ℕ) (db : Db) where
  abbrev after : Db
  after = completed now sources indexed db

  after_schema : get_meta Key.schema_version after ≡ get_meta Key.schema_version db
  unfolding completed bump_generation
  after_schema = simp get_meta-set_meta

  after_error : get_meta Key.last_sync_error after ≡ some []
  unfolding completed bump_generation
  after_error = simp get_meta-set_meta

  after_completed : get_meta Key.last_full_sync_completed after ≡ some (text "true")
  unfolding completed bump_generation
  after_completed = simp get_meta-set_meta

  after_sources : get_meta Key.source_page_count after ≡ some (str sources)
  unfolding completed bump_generation
  after_sources = simp get_meta-set_meta

  after_indexed : get_meta Key.indexed_page_count after ≡ some (str indexed)
  unfolding completed bump_generation
  after_indexed = simp get_meta-set_meta

  after_tables : (after.pages ≡ db.pages) × (after.quarantined_pages ≡ db.quarantined_pages)
  unfolding completed bump_generation set_meta
  after_tables = (refl, refl)

  after_full : full_sync_completed after ≡ true
  unfolding full_sync_completed strip lower
  after_full = rw after_completed

  -- With the counts of the tables, a finished rebuild is healthy.
  pub completed_is_ready :
      get_meta Key.schema_version db ≡ some (str shadow_schema_version)
      → indexed ≡ length db.pages
      → db.quarantined_pages ≡ some (quarantine_rows db)
      → length (quarantine_rows db) + indexed ≡ sources
      → database_health after ≡ returns ready
  unfolding database_health strip
  completed_is_ready schema counted table accounted =
      rw (after_schema, schema, after_error, after_full, ==_refl (str shadow_schema_version))
        (subst (λ q. count_health after q ≡ returns ready) (sym (after_tables.1 ∙ table))
          (counts_agree after indexed sources (quarantine_rows db) after_indexed after_sources
            (counted ∙ ap length (sym after_tables.0)) accounted))

emptied-schema :
    (db : Db) → get_meta Key.schema_version (emptied db) ≡ some (str shadow_schema_version)
unfolding emptied ensure_meta_defaults set_meta get_meta
emptied-schema db = simp Dict.get-insert

-- The contents that a rebuild commits are healthy.
pub rebuilt_is_ready :
    (quarantine : Bool) (graph : Graph) (now : Text) (paths : List Text) (db out : Db)
    → IsListing graph [] paths
    → rebuilt quarantine graph now paths db ≡ ok out
    → database_health out ≡ returns ready
unfolding rebuilt get_meta emptied set_meta
rebuilt_is_ready quarantine graph now paths db out listing e =
    let ((indexed, db'), e1, e2) =
      >>=-ok (index_pages quarantine graph now paths 0 (emptied db)) _ e in
    let start : Tally graph [] 0 (emptied db) = record {
      counted = refl;
      accounted = omega arith;
      known = tt;
      parked = unfold Dict.keys in tt;
      tabled = refl;
    } in
    let (counted, accounted, meta, table) =
      index_pages-Tally quarantine graph now paths [] 0 (emptied db) (indexed, db') listing start
        e1 in
    subst (λ o. database_health o ≡ returns ready) (ok_inj e2)
      (completed_is_ready now (length paths) indexed db'
        (ap (Dict.get Key.schema_version) meta ∙ emptied-schema db) counted table
        (omega (arith, accounted)))
