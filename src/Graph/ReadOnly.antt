-- ===== src/Graph/ReadOnly.antt =====
-- When a graph mutation gets through the read-only guard.
use matryca_plumber.Prelude.{
  ◌≡◌, ◌↔◌, ◌⊎◌, inl, inr, refl, subst, Bool, true, false, some, [], ◌∷◌, List, All, contains,
  ==_iff, Bool-cases, Option-cases, if◌then◌else◌, ◌==◌,
}
use matryca_plumber.Prelude.Text.{Text, text_eq, is_empty, lower}
use matryca_plumber.Graph.WritePolicy.{
  Env, Paths, Failure, Outcome, returned, raised, true_tokens, false_tokens, read_only_env,
  variable, bad_token, is_graph_read_only, guarded, guard_graph_mutation,
}

abbrev setting : Env → Text
setting env = lower (variable read_only_env env)

-- The setting asks for writes: it is missing, blank or one of the four words.
pub data IsWritable (env : Env) : Type 0 where
  unset : is_empty (setting env) ≡ true → IsWritable env
  switched_off : contains false_tokens (setting env) ≡ true → IsWritable env

-- The setting is one of the four words for read-only, the root and the path resolve, and the path
-- leads out of the root.
pub record LeadsOut (paths : Paths) (graph_root path : Text) (env : Env) : Type 0 where
  pub switched_on : contains true_tokens (setting env) ≡ true
  pub root : Text
  pub root_found : paths.resolved (paths.expanded graph_root) ≡ some root
  pub no_loop : paths.loops (paths.expanded path) ≡ false
  pub target : Text
  pub target_found : paths.resolved (paths.expanded path) ≡ some target
  pub outside : paths.is_relative_to target root ≡ false

-- What holds of every word holds of one that is among them.
contains-All :
    (P : Text → Type 0) (words : List Text) (raw : Text)
    → All P words
    → contains words raw ≡ true
    → P raw
contains-All P [] raw all h = cc
contains-All P (word ∷ words) raw all h = elim (Bool-cases (word == raw)) [
  | inl same ↦ subst P ((==_iff word raw).0 same) all.0
  | inr other ↦ contains-All P words raw all.1 (simp other at h)
]

-- No word has both meanings.
words-disjoint : (raw : Text) → contains false_tokens raw ≡ true → contains true_tokens raw ≡ false
words-disjoint raw =
    contains-All (λ s. contains true_tokens s ≡ false) false_tokens raw
      (refl, (refl, (refl, (refl, tt))))

true_word-nonempty : (raw : Text) → contains true_tokens raw ≡ true → is_empty raw ≡ false
true_word-nonempty raw =
    contains-All (λ s. is_empty s ≡ false) true_tokens raw (refl, (refl, (refl, (refl, tt))))

abbrev read_token : Bool → Bool → Bool → Outcome Bool
read_token empty on off =
    if empty
    then returned false
    else if on
    then returned true
    else if off
    then returned false
    else raised (bad_token read_only_env)

token-off :
    (empty on off : Bool) → read_token empty on off ≡ returned false → (empty ≡ true) ⊎ (off ≡ true)
token-off true on off h = inl refl
token-off false true off h = cc
token-off false false true h = inr refl
token-off false false false h = cc

token-on : (empty on off : Bool) → read_token empty on off ≡ returned true → on ≡ true
token-on true on off h = cc
token-on false true off h = refl
token-on false false true h = cc
token-on false false false h = cc

token-cases :
    (empty on off : Bool)
    → (read_token empty on off ≡ returned false)
      ⊎ ((read_token empty on off ≡ returned true)
          ⊎ (read_token empty on off ≡ raised (bad_token read_only_env)))
token-cases true on off = inl refl
token-cases false true off = inr (inl refl)
token-cases false false true = inl refl
token-cases false false false = inr (inr refl)

setting-off : (env : Env) → is_graph_read_only env ≡ returned false → IsWritable env
unfolding is_graph_read_only
setting-off env h = elim (token-off (is_empty (setting env)) _ _ h) [
  | inl e ↦ unset e
  | inr e ↦ switched_off e
]

setting-on :
    (env : Env) → is_graph_read_only env ≡ returned true → contains true_tokens (setting env) ≡ true
unfolding is_graph_read_only
setting-on env h = token-on (is_empty (setting env)) _ (contains false_tokens (setting env)) h

off-setting : (env : Env) → IsWritable env → is_graph_read_only env ≡ returned false
unfolding is_graph_read_only
off-setting env (unset e) = simp e refl
off-setting env (switched_off e) = elim (Bool-cases (is_empty (setting env))) [
  | inl empty ↦ simp empty refl
  | inr some_text ↦ simp (some_text, words-disjoint (setting env) e, e) refl
]

on-setting :
    (env : Env) → contains true_tokens (setting env) ≡ true → is_graph_read_only env ≡ returned true
unfolding is_graph_read_only
on-setting env e = simp (true_word-nonempty (setting env) e, e) refl

setting-cases :
    (env : Env)
    → (is_graph_read_only env ≡ returned false)
      ⊎ ((is_graph_read_only env ≡ returned true)
          ⊎ (is_graph_read_only env ≡ raised (bad_token read_only_env)))
unfolding is_graph_read_only
setting-cases env =
    token-cases (is_empty (setting env)) (contains true_tokens (setting env))
      (contains false_tokens (setting env))

blocked {ℓ} : {A : Type ℓ} {e : Failure} → ◌≡◌ {A = Outcome (Unit {0})} (raised e) (returned tt) → A
blocked h = absurd (cc h)

module _ (paths : Paths) (graph_root path operation : Text) where
  -- The guarded write gets through exactly if both paths resolve and the target lies outside.
  guarded-out :
      (env : Env)
      → contains true_tokens (setting env) ≡ true
      → guarded paths graph_root path operation ≡ returned tt
      → LeadsOut paths graph_root path env
  unfolding guarded
  guarded-out env on h = elim (Option-cases (paths.resolved (paths.expanded graph_root))) [
    | inl lost ↦ blocked (simp lost at h)
    | inr (root, found) ↦ elim (Bool-cases (paths.loops (paths.expanded path))) [
      | inl loops ↦ blocked (simp (found, loops) at h)
      | inr straight ↦ elim (Option-cases (paths.resolved (paths.expanded path))) [
        | inl gone ↦ blocked (simp (found, straight, gone) at h)
        | inr (target, at) ↦ elim (Bool-cases (paths.is_relative_to target root)) [
          | inl inside ↦ blocked (simp (found, straight, at, inside) at h)
          | inr outside ↦ record {
            switched_on = on;
            root = root;
            root_found = found;
            no_loop = straight;
            target = target;
            target_found = at;
            outside = outside;
          }
        ]
      ]
    ]
  ]

  out-guarded :
      (env : Env)
      → LeadsOut paths graph_root path env
      → guarded paths graph_root path operation ≡ returned tt
  unfolding guarded
  out-guarded env out = simp (out.root_found, out.no_loop, out.target_found, out.outside) refl

  -- The guard lets a mutation through exactly if the setting is missing, blank or one of the words
  -- that switch it off, or if it is one of the words that switch it on, the root and the path
  -- resolve, and the path leads out of the root.
  pub guard_allows_iff :
      (env : Env)
      → (guard_graph_mutation paths graph_root path operation env ≡ returned tt)
        ↔ (IsWritable env ⊎ LeadsOut paths graph_root path env)
  unfolding guard_graph_mutation
  guard_allows_iff env = (
    λ h. elim (setting-cases env) [
      | inl off ↦ inl (setting-off env off)
      | inr (inl on) ↦ inr (guarded-out env (setting-on env on) (simp on at h))
      | inr (inr bad) ↦ blocked (simp bad at h)
    ],
    λ either. elim either [
      | inl writable ↦ simp (off-setting env writable) refl
      | inr out ↦ simp (on-setting env out.switched_on) (out-guarded env out)
    ],
  )
