-- ===== src/Graph/WritePolicy.antt =====
-- The read-only policy of graph writes (src/graph/safety/write_policy.py). What `Path` and the
-- file system answer is an argument, `Paths`.
use matryca_plumber.Prelude.{
  Bool, true, false, not, ◌&&◌, Option, none, some, List, [], ◌∷◌, contains, if◌then◌else◌,
}
use matryca_plumber.Prelude.Text.{Text, text, text_eq, is_empty, strip, lower}
use matryca_plumber.Prelude.Dict
use matryca_plumber.Prelude.Dict.{Dict}

abbrev pub Env : Type 0
Env = Dict Text Text

pub data Reason : Type 0 where
  graph_root_unresolvable cache_path_not_absolute cache_path_unresolvable cache_path_inside_graph
        graph_root_mutation_blocked path_unresolvable :
      Reason

pub record GraphReadOnlyError : Type 0 where
  pub operation : Text
  pub path : Option Text
  pub reason : Reason

-- `bad_token` is the `ValueError` of an environment variable that is no Boolean.
pub data Failure : Type 0 where
  read_only_error : GraphReadOnlyError → Failure
  bad_token : Text → Failure

pub data Outcome (A : Type 0) : Type 0 where
  returned : A → Outcome A
  raised : Failure → Outcome A

infixl 5 ◌>>=◌
abbrev pub ◌>>=◌ : {A B : Type 0} → Outcome A → (A → Outcome B) → Outcome B
returned a >>= f = f a
raised e >>= f = raised e

abbrev pub refuse : {A : Type 0} → Text → Option Text → Reason → Outcome A
refuse operation path reason =
    raised (read_only_error (record { operation = operation; path = path; reason = reason }))

-- `expanded` is `Path.expanduser`; `loops` that `stat` ends in `ELOOP`; `resolved` is
-- `resolve(strict=False)`, with `none` for an `OSError` or a `RuntimeError`.
pub record Paths : Type 0 where
  pub expanded : Text → Text
  pub loops : Text → Bool
  pub resolved : Text → Option Text
  pub is_absolute : Text → Bool
  pub is_relative_to : Text → Text → Bool

pub record RuntimeWritePolicy : Type 0 where
  pub graph_root : Text
  pub read_only : Bool
  pub cache_path : Option Text

abbrev pub true_tokens : List Text
true_tokens = text "1" ∷ text "true" ∷ text "yes" ∷ text "on" ∷ []

abbrev pub false_tokens : List Text
false_tokens = text "0" ∷ text "false" ∷ text "no" ∷ text "off" ∷ []

abbrev pub read_only_env : Text
read_only_env = text "MATRYCA_READ_ONLY"

abbrev pub cache_path_env : Text
cache_path_env = text "MATRYCA_CACHE_PATH"

abbrev pub graph_path_env : Text
graph_path_env = text "LOGSEQ_GRAPH_PATH"

abbrev or_empty : Option Text → Text
or_empty none = []
or_empty (some s) = s

-- `env.get(key, "").strip()`
abbrev pub variable : Text → Env → Text
variable key env = strip (or_empty (Dict.get key env))

abbrev pub bool_of_token : Text → Bool → Text → Outcome Bool
bool_of_token key default raw =
    if is_empty raw
    then returned default
    else if contains true_tokens raw
    then returned true
    else if contains false_tokens raw
    then returned false
    else raised (bad_token key)

unfoldable pub mapping_bool : Env → Text → Bool → Outcome Bool
unfolding Dict.get strip lower
mapping_bool env key default = bool_of_token key default (lower (variable key env))

unfoldable pub is_graph_read_only : Env → Outcome Bool
unfolding mapping_bool
is_graph_read_only env = mapping_bool env read_only_env false

module _ (paths : Paths) where
  abbrev answer_of : Text → Text → Reason → Option Text → Outcome Text
  answer_of path operation reason none = refuse operation (some path) reason
  answer_of path operation reason (some p) = returned p

  unfoldable pub resolve_canonical_path : Text → Text → Reason → Outcome Text
  resolve_canonical_path path operation reason =
      let expanded = paths.expanded path in
      if paths.loops expanded
      then refuse operation (some path) reason
      else answer_of path operation reason (paths.resolved expanded)

  -- The cache path in `__post_init__`, below a root that is resolved.
  unfoldable pub checked_cache : Text → Option Text → Outcome (Option Text)
  unfolding resolve_canonical_path
  checked_cache graph_root none = returned none
  checked_cache graph_root (some cache) =
      let operation = text "cache_path" in
      let expanded = paths.expanded cache in
      if not (paths.is_absolute expanded)
      then refuse operation (some cache) cache_path_not_absolute
      else (do
        resolved ← resolve_canonical_path expanded operation cache_path_unresolvable
        (if paths.is_relative_to resolved graph_root
            then refuse operation (some resolved) cache_path_inside_graph
            else returned (some resolved)))

  -- `RuntimeWritePolicy(graph_root=…, read_only=…, cache_path=…)`
  unfoldable pub runtime_write_policy : Text → Bool → Option Text → Outcome RuntimeWritePolicy
  unfolding checked_cache
  runtime_write_policy graph_root read_only cache = do
    root ←
        answer_of graph_root (text "graph_root") graph_root_unresolvable
          (paths.resolved (paths.expanded graph_root))
    cache_path ← checked_cache root cache
    returned (record { graph_root = root; read_only = read_only; cache_path = cache_path })

  unfoldable pub from_env : Text → Env → Outcome RuntimeWritePolicy
  unfolding runtime_write_policy is_graph_read_only
  from_env graph_root env = do
    read_only ← is_graph_read_only env
    let cache = variable cache_path_env env
    runtime_write_policy graph_root read_only (if is_empty cache then none else some cache)

  unfoldable pub ensure_write_allowed : RuntimeWritePolicy → Text → Text → Outcome Text
  unfolding resolve_canonical_path
  ensure_write_allowed policy path operation = do
    resolved ← resolve_canonical_path path operation path_unresolvable
    (if policy.read_only && paths.is_relative_to resolved policy.graph_root
        then refuse operation (some resolved) graph_root_mutation_blocked
        else returned resolved)

  unfoldable pub ensure_graph_write_allowed : Text → Text → Env → Outcome (Unit {0})
  unfolding from_env ensure_write_allowed
  ensure_graph_write_allowed graph_root operation env = do
    policy ← from_env graph_root env
    _ ← ensure_write_allowed policy policy.graph_root operation
    returned tt

  -- The guards when read-only is on.
  unfoldable pub guarded : Text → Text → Text → Outcome (Unit {0})
  unfolding runtime_write_policy ensure_write_allowed
  guarded graph_root path operation = do
    policy ← runtime_write_policy graph_root true none
    _ ← ensure_write_allowed policy path operation
    returned tt

  unfoldable pub guard_graph_mutation : Text → Text → Text → Env → Outcome (Unit {0})
  unfolding guarded is_graph_read_only
  guard_graph_mutation graph_root path operation env = do
    read_only ← is_graph_read_only env
    if not read_only then returned tt else guarded graph_root path operation

  unfoldable pub guard_graph_mutation_from_env : Text → Text → Env → Outcome (Unit {0})
  unfolding guarded is_graph_read_only
  guard_graph_mutation_from_env path operation env = do
    read_only ← is_graph_read_only env
    let raw_graph = variable graph_path_env env
    (if not read_only
        then returned tt
        else if is_empty raw_graph
        then refuse operation (some path) graph_root_unresolvable
        else guarded raw_graph path operation)
