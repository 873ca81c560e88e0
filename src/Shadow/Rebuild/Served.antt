-- ===== src/Shadow/Rebuild/Served.antt =====
-- What readers see once a rebuild has ended.
use matryca_plumber.Prelude.{
  ◌≡◌, refl, ap, ◌∙◌, true, false, none, some, List, [], arith, Bool-cases, nat_eq, inl, inr,
  ==_refl,
}
use matryca_plumber.Prelude.Text.{Text, text_eq}
use matryca_plumber.Prelude.Sets
use matryca_plumber.Prelude.Sets.{contains-discard, contains-add}
use matryca_plumber.Prelude.Sort.{sorted}
use matryca_plumber.Prelude.Dict
use matryca_plumber.Prelude.Dict.{Dict}
use matryca_plumber.Shadow.Database.{Db}
use matryca_plumber.Shadow.Runtime.{
  is_shadow_bootstrapping, clear_bootstrapping, mark_bootstrapping, pop_deferred_sync_paths,
  clear_shadow_generation_invalid, is_shadow_generation_invalid,
}
use matryca_plumber.Shadow.Process.{Process, Surroundings, Opening}
use matryca_plumber.Shadow.SyncFailure.{is_shadow_sync_failed, clear_shadow_sync_failed}
use matryca_plumber.Shadow.Health.{
  ready, returns, database_health, file_health, opened_health, guarded_health,
  resolve_shadow_health,
}
use matryca_plumber.Shadow.Sync.{Graph, Result, ok, err}
use matryca_plumber.Shadow.Writer.{open_shadow_db}
use matryca_plumber.Shadow.Bootstrap.{
  rebuilt, rebuild_transaction, replay_paths, replay_deferred_syncs, finished,
  rebuild_shadow_from_graph, defer_paths,
}
use matryca_plumber.Shadow.Rebuild.Steps.{IsListing}
use matryca_plumber.Shadow.Rebuild.Ready.{rebuilt_is_ready}

-- The paths that were deferred for the root, none.
abbrev pub HasNoDeferred : Text → Process → Type 0
HasNoDeferred root p = Dict.get root p.runtime.deferred_sync_paths ≡ none

-- The database is healthy, and no failed synchronisation is marked.
record IsSettled (io : Surroundings) (root : Text) (p : Process) : Type 0 where
  healthy : file_health Opening.granted p.database ≡ returns ready
  valid : is_shadow_sync_failed io root p ≡ false

module _ (io : Surroundings) (graph : Graph) (root : Text) where
  -- Without deferred paths the `finally` block takes the mark off, and forgets the root's entry.
  abbrev pub unmarked : Process → Process
  unmarked p = record p {
    runtime = record p.runtime {
      bootstrapping_roots = Sets.discard root p.runtime.bootstrapping_roots;
      deferred_sync_paths = Dict.remove root p.runtime.deferred_sync_paths;
    };
  }

  pub finished-unmarked :
      (p : Process) → HasNoDeferred root p → finished io graph root p ≡ unmarked p
  unfolding finished replay_deferred_syncs pop_deferred_sync_paths clear_bootstrapping replay_paths
      sorted
  finished-unmarked p none_deferred = rw none_deferred refl

  unmarked_serves :
      (p : Process)
      → io.shadow_db_enabled ≡ true
      → io.cache_located ≡ true
      → io.query_only ≡ Opening.granted
      → IsSettled io root p
      → resolve_shadow_health io root (unmarked p) ≡ returns ready
  unfolding resolve_shadow_health guarded_health is_shadow_bootstrapping is_shadow_sync_failed
      is_shadow_generation_invalid
  unmarked_serves p enabled located opens s =
      rw
        (
          enabled,
          contains-discard root root p.runtime.bootstrapping_roots,
          ==_refl root,
          s.valid,
          located,
          opens,
        )
        s.healthy

  cleared_settles :
      (p : Process)
      → file_health Opening.granted p.database ≡ returns ready
      → io.cache_located ≡ true
      → io.marker_unlinks ≡ true
      → IsSettled io root (clear_shadow_sync_failed io root p).0
  unfolding clear_shadow_sync_failed clear_shadow_generation_invalid is_shadow_sync_failed
      is_shadow_generation_invalid
  cleared_settles p healthy located unlinks =
      simp (located, unlinks)
        (record {
          healthy = healthy;
          valid =
              simp (contains-discard root root p.runtime.invalidated_roots, ==_refl root, located);
        })

  transaction_settles :
      (r : Result Db) (p : Process)
      → ((db : Db) → r ≡ ok db → database_health db ≡ returns ready)
      → io.cache_located ≡ true
      → io.marker_unlinks ≡ true
      → (rebuild_transaction io root r p).1 ≡ none
      → IsSettled io root (rebuild_transaction io root r p).0
  unfolding rebuild_transaction
  transaction_settles (err e) p healthy located unlinks quiet = cc
  transaction_settles (ok db) p healthy located unlinks quiet =
      elim (Bool-cases io.writes_succeed) [
        | inl succeed ↦ simp succeed (
            cleared_settles (record p { database = some db })
              (unfold file_health opened_health in healthy db refl) located unlinks)
        | inr fail ↦ cc (simp fail at quiet)
      ]

  -- The transaction leaves the deferred paths alone.
  pub transaction-deferred :
      (r : Result Db) (p : Process)
      → (rebuild_transaction io root r p).0.runtime.deferred_sync_paths
        ≡ p.runtime.deferred_sync_paths
  unfolding rebuild_transaction clear_shadow_sync_failed clear_shadow_generation_invalid
  transaction-deferred (err e) p = refl
  transaction-deferred (ok db) p = ground arith

  -- For a root with no deferred path, before or during the rebuild, and a listing whose files exist and whose paths and titles
  -- differ: after a rebuild that raises nothing, with the flag on, the lock and the connection had
  -- and the marker removable, health is READY.
  pub rebuild-ready :
      (source_paths : List Text) (p : Process)
      → io.shadow_db_enabled ≡ true
      → io.lock_taken ≡ true
      → io.writer_opens ≡ true
      → io.cache_located ≡ true
      → io.marker_unlinks ≡ true
      → io.query_only ≡ Opening.granted
      → HasNoDeferred root p
      → IsListing graph [] source_paths
      → (rebuild_shadow_from_graph io graph source_paths [] root p).1 ≡ none
      → resolve_shadow_health io root (rebuild_shadow_from_graph io graph source_paths [] root p).0
        ≡ returns ready
  unfolding rebuild_shadow_from_graph mark_bootstrapping defer_paths
  rebuild-ready source_paths p enabled locked opened located unlinks readable deferred listing
        quiet =
      let db = open_shadow_db p.database in
      let q : Process = record p {
        runtime = mark_bootstrapping root p.runtime;
        database = some db;
      } in
      let r = rebuilt io.shadow_quarantine_enabled graph io.now source_paths db in
      let settled =
        transaction_settles r q (λ out. rebuilt_is_ready _ graph io.now source_paths db out listing)
          located unlinks (simp (enabled, locked, opened) at quiet) in
      simp (enabled, locked, opened)
        (simp
          (finished-unmarked (rebuild_transaction io root r q).0
            (ap (Dict.get root) (transaction-deferred r q) ∙ deferred))
          (unmarked_serves (rebuild_transaction io root r q).0 enabled located readable settled))
