-- ===== src/Graph/Tests.antt =====
-- The read-only guard at a graph `/g` whose paths resolve to themselves, and a registry of page
-- locks.
use matryca_plumber.Prelude.{
  ◌≡◌, ◌⊎◌, ◌↔◌, refl, false, none, some, inr, [], ◌∷◌, ◌==◌, nat_eq, take, if◌then◌else◌,
}
use matryca_plumber.Prelude.Text.{text, text_eq}
use matryca_plumber.Prelude.Dict
use matryca_plumber.Prelude.Unique.{IsUnique}
use matryca_plumber.Graph.PageLocks.{Registry, evicted_key, lock_for_key}
use matryca_plumber.Graph.HeldLocks.{Request, asked, held_met}
use matryca_plumber.Graph.WritePolicy.{
  Env, Paths, returned, raised, bad_token, refuse, graph_root_mutation_blocked,
  cache_path_inside_graph, guard_graph_mutation, guard_graph_mutation_from_env, from_env,
  is_graph_read_only,
}
use matryca_plumber.Graph.ReadOnly.{IsWritable, LeadsOut, guard_allows_iff}

abbrev paths : Paths
paths = record {
  expanded = λ p. p;
  loops = λ p. false;
  resolved = some;
  is_absolute = λ p. take 1 p == text "/";
  is_relative_to = λ p root. take 2 p == root;
}

abbrev read_only : Env
read_only = (text "MATRYCA_READ_ONLY", text " On ") ∷ []

guard_runs :
    guard_graph_mutation paths (text "/g") (text "/g/a") (text "save") read_only
    ≡ refuse (text "save") (some (text "/g/a")) graph_root_mutation_blocked
unfolding guard_graph_mutation
guard_runs = refl

guard_outside_runs :
    guard_graph_mutation paths (text "/g") (text "/h/a") (text "save") read_only ≡ returned tt
unfolding guard_graph_mutation
guard_outside_runs = refl

bad_token_runs :
    is_graph_read_only ((text "MATRYCA_READ_ONLY", text "maybe") ∷ [])
    ≡ raised (bad_token (text "MATRYCA_READ_ONLY"))
unfolding is_graph_read_only
bad_token_runs = refl

from_env_runs :
    from_env paths (text "/g") ((text "MATRYCA_CACHE_PATH", text "/g/c") ∷ [])
    ≡ refuse (text "cache_path") (some (text "/g/c")) cache_path_inside_graph
unfolding from_env
from_env_runs = refl

guard_from_env_runs :
    guard_graph_mutation_from_env paths
      (text "/g/a")
      (text "save")
      ((text "LOGSEQ_GRAPH_PATH", text "/g") ∷ read_only)
    ≡ refuse (text "save") (some (text "/g/a")) graph_root_mutation_blocked
unfolding guard_graph_mutation_from_env
guard_from_env_runs = refl

guard_allows_iff_example :
    (guard_graph_mutation paths (text "/g") (text "/h/a") (text "save") read_only ≡ returned tt)
    ↔ (IsWritable read_only ⊎ LeadsOut paths (text "/g") (text "/h/a") read_only)
guard_allows_iff_example = guard_allows_iff paths (text "/g") (text "/h/a") (text "save") read_only

-- Page `a` has lock 1, which thread 8 holds while thread 9 asks for page `b`.
abbrev registry : Registry
registry = record { page_locks = (text "a", 1) ∷ []; next_lock = 2; holder = λ lock. none }

abbrev held_by_8 : Request
held_by_8 = record {
  thread = 9;
  key = text "b";
  holder = λ lock. if lock == 1 then some 8 else none;
}

registry-IsUnique : IsUnique registry.page_locks
unfolding Dict.keys
registry-IsUnique = (refl, tt)

registry_get : Dict.get (text "a") registry.page_locks ≡ some 1
unfolding Dict.get
registry_get = refl

held_met_example : (lock_for_key false 9 (text "a") (asked false (held_by_8 ∷ []) registry)).1 ≡ 1
held_met_example =
    held_met false (held_by_8 ∷ []) registry (text "a") 1 9 registry-IsUnique registry_get
      (record { owner = 8; held = refl; seen = inr refl }, tt)

-- Without the probe the loop evicts the lock that its own thread holds.
evicts_own : evicted_key false 8 held_by_8.holder registry.page_locks ≡ some (text "a")
unfolding evicted_key
evicts_own = refl
