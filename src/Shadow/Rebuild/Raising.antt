-- ===== src/Shadow/Rebuild/Raising.antt =====
-- What a rebuild leaves behind when it raises.
use matryca_plumber.Prelude.{◌≡◌, refl, true, false, Option, none, some, List, ◌⊎◌, ==_refl}
use matryca_plumber.Prelude.Text.{Text, text_eq}
use matryca_plumber.Prelude.Sets.{contains-add}
use matryca_plumber.Graph.PagePath.{is_markdown}
use matryca_plumber.Shadow.Runtime.{is_shadow_bootstrapping, mark_bootstrapping, defer_sync_path}
use matryca_plumber.Shadow.Process.{Process, Surroundings}
use matryca_plumber.Shadow.Health.{HealthState, returns, guarded_health, resolve_shadow_health}
use matryca_plumber.Shadow.Sync.{Graph}
use matryca_plumber.Shadow.Writer.{Raised, sync_page_to_shadow}
use matryca_plumber.Shadow.Bootstrap.{rebuild_shadow_from_graph}
use matryca_plumber.Shadow.FailClosed.{SameRows}

-- The rows are those of `p`, or what `replay` makes of a process with them.
abbrev IsReplayed : (Process → Process) → Process → Process → Type 0
IsReplayed replay p result =
    SameRows p result ⊎ ((q : Process) × SameRows p q × (result ≡ replay q))

abbrev ReplaysIfRaised : Raised → (Process → Process) → Process → Process × Option Raised → Type 0
ReplaysIfRaised e replay p result = result.1 ≡ some e → IsReplayed replay p result.0

module _ (io : Surroundings) (graph : Graph) (root : Text) where
  -- With the flag on and the lock had: if the database does not open for the rebuild, the root stays
  -- marked. While the flag is on health is BOOTSTRAPPING, and a change of a Markdown page is deferred
  -- and not written.
  pub unopened-stuck :
      (later : Surroundings) (source_paths arriving : List Text) (rel : Text) (p : Process)
      → io.shadow_db_enabled ≡ true
      → io.lock_taken ≡ true
      → io.writer_opens ≡ false
      → later.shadow_db_enabled ≡ true
      → is_markdown rel ≡ true
      → let q = (rebuild_shadow_from_graph io graph source_paths arriving root p).0 in
        (resolve_shadow_health later root q ≡ returns HealthState.bootstrapping)
        × (sync_page_to_shadow later graph root rel q
            ≡ (record q { runtime = defer_sync_path root rel q.runtime }, none))
  unfolding rebuild_shadow_from_graph mark_bootstrapping resolve_shadow_health guarded_health
      sync_page_to_shadow is_shadow_bootstrapping
  unopened-stuck later source_paths arriving rel p enabled locked unopened on markdown =
      simp
        (
          enabled,
          locked,
          unopened,
          on,
          markdown,
          contains-add root root p.runtime.bootstrapping_roots,
          ==_refl root,
        )
        (refl, refl)
