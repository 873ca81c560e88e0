-- ===== src/Shadow/Runtime.antt =====
-- The process-local coordination state (src/shadow/runtime_state.py). A graph root is its resolved
-- path; the locks of the module are not modelled, so each function is one atomic step.
use matryca_plumber.Prelude.{Bool, Option, none, some, List, [], contains}
use matryca_plumber.Prelude.Text.{Text, text_eq}
use matryca_plumber.Prelude.Sets
use matryca_plumber.Prelude.Sort.{sorted, text_leb}
use matryca_plumber.Prelude.Dict
use matryca_plumber.Prelude.Dict.{Dict}

pub record RuntimeState : Type 0 where
  pub bootstrapping_roots : List Text
  pub invalidated_roots : List Text
  pub deferred_sync_paths : Dict Text (List Text)

-- The state of a new process, and after `reset_shadow_runtime_state_for_tests`.
abbrev pub initial : RuntimeState
initial = record { bootstrapping_roots = []; invalidated_roots = []; deferred_sync_paths = [] }

unfoldable pub is_shadow_bootstrapping : Text → RuntimeState → Bool
is_shadow_bootstrapping root s = contains s.bootstrapping_roots root

unfoldable pub mark_bootstrapping : Text → RuntimeState → RuntimeState
mark_bootstrapping root s = record s { bootstrapping_roots = Sets.add root s.bootstrapping_roots }

unfoldable pub clear_bootstrapping : Text → RuntimeState → RuntimeState
clear_bootstrapping root s = record s {
  bootstrapping_roots = Sets.discard root s.bootstrapping_roots;
}

unfoldable pub mark_shadow_generation_invalid : Text → RuntimeState → RuntimeState
mark_shadow_generation_invalid root s = record s {
  invalidated_roots = Sets.add root s.invalidated_roots;
}

unfoldable pub clear_shadow_generation_invalid : Text → RuntimeState → RuntimeState
clear_shadow_generation_invalid root s = record s {
  invalidated_roots = Sets.discard root s.invalidated_roots;
}

unfoldable pub is_shadow_generation_invalid : Text → RuntimeState → Bool
is_shadow_generation_invalid root s = contains s.invalidated_roots root

abbrev pub paths_at : Option (List Text) → List Text
paths_at none = []
paths_at (some paths) = paths

-- `_deferred_sync_paths` is a `defaultdict` of sets.
unfoldable pub defer_sync_path : Text → Text → RuntimeState → RuntimeState
defer_sync_path root rel_path s =
    let paths = paths_at (Dict.get root s.deferred_sync_paths) in
    record s {
      deferred_sync_paths = Dict.insert root (Sets.add rel_path paths) s.deferred_sync_paths;
    }

-- The sorted paths, and the state without them.
unfoldable pub pop_deferred_sync_paths : Text → RuntimeState → List Text × RuntimeState
pop_deferred_sync_paths root s = (
  sorted text_leb (paths_at (Dict.get root s.deferred_sync_paths)),
  record s { deferred_sync_paths = Dict.remove root s.deferred_sync_paths },
)
