-- ===== src/Session/Topology.antt =====
-- The validation of a topology (`GraphTopologyResult._validate_canonical_preorder`,
-- src/graph/session_topology_models.py). Identifiers were validated field by field before.
use matryca_plumber.Prelude.{
  ℕ, ◌+◌, ◌≡◌, ◌↔◌, refl, ap, Bool, true, ◌&&◌, not, Option, none, some, List, [], ◌∷◌, ◌==◌, Eq,
  contains, option_beq, map, if◌then◌else◌, arith, nat_eq, list_beq, ==_iff, some_inj,
}
use matryca_plumber.Prelude.Text.{Text, text_eq}
use matryca_plumber.Prelude.Sort.{sorted, text_leb}
use matryca_plumber.Prelude.Dict
use matryca_plumber.Prelude.Dict.{Dict}

pub data NodeKind : Type 0 where
  page block : NodeKind

pub record GraphTopologyNode : Type 0 where
  pub id : Text
  pub kind : NodeKind
  pub parent_id : Option Text
  pub ordinal : ℕ

-- The kind of a reference has one value.
pub record GraphTopologyReference : Type 0 where
  pub source_id : Text
  pub target_id : Text

pub record GraphTopologyResult : Type 0 where
  pub topology_id : Text
  pub nodes : List GraphTopologyNode
  pub edges : List GraphTopologyReference
  pub source_revision : Text

pub data TopologyError : Type 0 where
  node_identifiers_must_be_unique page_nodes_must_be_roots block_nodes_require_a_parent
        nodes_must_use_canonical_preorder sibling_ordinals_must_be_contiguous
        references_must_target_declared_nodes references_must_use_canonical_lexical_order :
      TopologyError

pub option_beq_iff : (a b : Option Text) → (option_beq a b ≡ true) ↔ (a ≡ b)
option_beq_iff none none = (λ h. refl, λ h. refl)
option_beq_iff none (some b) = (λ h. cc, λ h. cc)
option_beq_iff (some a) none = (λ h. cc, λ h. cc)
option_beq_iff (some a) (some b) =
    (λ h. ap some ((==_iff a b).0 h), λ h. (==_iff a b).1 (some_inj h))

instance abbrev pub option_eq : Eq (Option Text)
option_eq = record { same = option_beq; decides = option_beq_iff }

-- `next_ordinal.get(parent_id, 0)`
abbrev pub or_zero : Option ℕ → ℕ
or_zero none = 0
or_zero (some n) = n

abbrev pub expected_ordinal : Dict (Option Text) ℕ → Option Text → ℕ
expected_ordinal next parent = or_zero (Dict.get parent next)

-- A problem ends the validation; without one the rest is checked.
abbrev pub or_rest : Option TopologyError → Option TopologyError → Option TopologyError
or_rest none rest = rest
or_rest (some problem) rest = some problem

-- The checks of one node, in the order of the source; `none` passes.
unfoldable pub kind_problem : NodeKind → Option Text → Option TopologyError
kind_problem page (some _) = some page_nodes_must_be_roots
kind_problem block none = some block_nodes_require_a_parent
kind_problem _ _ = none

abbrev pub parent_seen : List Text → Option Text → Bool
parent_seen seen none = true
parent_seen seen (some parent) = contains seen parent

unfoldable pub node_problem :
    List Text → Dict (Option Text) ℕ → GraphTopologyNode → Option TopologyError
node_problem seen next node =
    if contains seen node.id
    then some node_identifiers_must_be_unique
    else elim (kind_problem node.kind node.parent_id) [
      | some problem ↦ some problem
      | none ↦
          if not (parent_seen seen node.parent_id)
          then some nodes_must_use_canonical_preorder
          else if not (node.ordinal == expected_ordinal next node.parent_id)
          then some sibling_ordinals_must_be_contiguous
          else none
    ]

-- The loop over the nodes. `seen` holds the keys of the dictionary, the latest first.
unfoldable pub nodes_problem :
    List Text → Dict (Option Text) ℕ → List GraphTopologyNode → Option TopologyError
nodes_problem seen next [] = none
nodes_problem seen next (node ∷ more) = or_rest (node_problem seen next node) (
    nodes_problem (node.id ∷ seen)
      (Dict.insert node.parent_id (expected_ordinal next node.parent_id + 1) next) more)

abbrev pub EdgeKey : Type 0
EdgeKey = Text × Text

edge_key : GraphTopologyReference → EdgeKey
edge_key edge = (edge.source_id, edge.target_id)

pub key_beq_iff : (a b : EdgeKey) → (((a.0 == b.0) && (a.1 == b.1)) ≡ true) ↔ (a ≡ b)
key_beq_iff (a, b) (c, d) = ground (arith, ==_iff a c, ==_iff b d)

instance abbrev pub key_eq : Eq EdgeKey
key_eq = record { same = λ a b. (a.0 == b.0) && (a.1 == b.1); decides = key_beq_iff }

-- The order of the tuples.
key_leb : EdgeKey → EdgeKey → Bool
key_leb (a, b) (c, d) = if a == c then text_leb b d else text_leb a c

-- `set(keys)`
key_set : List EdgeKey → List EdgeKey
key_set [] = []
key_set (k ∷ more) = let rest = key_set more in if contains more k then rest else k ∷ rest

unfoldable pub ends_declared : List Text → List GraphTopologyReference → Bool
ends_declared ids [] = true
ends_declared ids (edge ∷ more) =
    contains ids edge.source_id && contains ids edge.target_id && ends_declared ids more

unfoldable pub edges_problem : List Text → List GraphTopologyReference → Option TopologyError
unfolding edge_key key_leb key_set
edges_problem ids edges =
    let keys = map edge_key edges in
    if not (ends_declared ids edges)
    then some references_must_target_declared_nodes
    else if not (list_beq keys (sorted key_leb (key_set keys)))
    then some references_must_use_canonical_lexical_order
    else none

-- The first error that the validator raises, or `none`.
unfoldable pub validate_canonical_preorder : GraphTopologyResult → Option TopologyError
validate_canonical_preorder result =
    or_rest (nodes_problem [] [] result.nodes)
      (edges_problem (map (λ n. n.id) result.nodes) result.edges)
