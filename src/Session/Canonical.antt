-- ===== src/Session/Canonical.antt =====
-- The node checks of a topology: the order they accept, and what follows for the nodes.
use matryca_plumber.Prelude.{
  ℕ, ◌+◌, ◌≡◌, ◌≢◌, ◌↔◌, refl, sym, ap, ◌∙◌, Bool, true, false, ◌&&◌, not, Option, none, some, List,
  [], ◌∷◌, ◌==◌, if◌then◌else◌, ==_iff, Bool-cases, inl, inr, contains, map, nat_eq, All, All-map,
  subst,
}
use mathlib.Core.List.{Memᴰ}
use matryca_plumber.Prelude.Text.{Text, text_eq}
use matryca_plumber.Prelude.Dict
use matryca_plumber.Prelude.Dict.{Dict}
use matryca_plumber.Session.Topology.{
  NodeKind, page, block, GraphTopologyNode, TopologyError, option_eq, or_rest, expected_ordinal,
  kind_problem, parent_seen, node_problem, nodes_problem, GraphTopologyResult,
  validate_canonical_preorder, edges_problem, GraphTopologyReference, ends_declared,
}

-- How many of the nodes have this parent.
abbrev pub children : Option Text → List GraphTopologyNode → ℕ
children parent [] = 0
children parent (node ∷ more) =
    let rest = children parent more in if node.parent_id == parent then rest + 1 else rest

-- A page is a root, and a block is not.
abbrev pub HasShape : NodeKind → Option Text → Type 0
HasShape page parent = parent ≡ none
HasShape block parent = parent ≢ none

-- A node behind the nodes `earlier`: a new identifier, the shape of its kind, a parent that came
-- before, and the number of its earlier siblings.
pub record IsNext (earlier : List GraphTopologyNode) (node : GraphTopologyNode) : Type 0 where
  pub is_new : contains (map (λ n. n.id) earlier) node.id ≡ false
  pub shaped : HasShape node.kind node.parent_id
  pub parent_before : parent_seen (map (λ n. n.id) earlier) node.parent_id ≡ true
  pub counted : node.ordinal ≡ children node.parent_id earlier

abbrev pub IsParentFirst : List GraphTopologyNode → List GraphTopologyNode → Type 0
IsParentFirst earlier [] = Unit {0}
IsParentFirst earlier (node ∷ more) = IsNext earlier node × IsParentFirst (node ∷ earlier) more

kind_problem_iff :
    (kind : NodeKind) (parent : Option Text)
    → (kind_problem kind parent ≡ none) ↔ HasShape kind parent
unfolding kind_problem
kind_problem_iff page none = (λ h. refl, λ h. refl)
kind_problem_iff page (some parent) = (λ h. cc, λ h. cc)
kind_problem_iff block none = (λ h. cc, λ h. absurd (h refl))
kind_problem_iff block (some parent) = (λ h e. cc, λ h. refl)

abbrev passes : Bool → Option TopologyError → Bool → Bool → Option TopologyError
passes known kind seen in_order =
    if known then some TopologyError.node_identifiers_must_be_unique else elim kind [
      | some problem ↦ some problem
      | none ↦
          if not seen
          then some TopologyError.nodes_must_use_canonical_preorder
          else if not in_order
          then some TopologyError.sibling_ordinals_must_be_contiguous
          else none
    ]

passes_all :
    (known : Bool) (kind : Option TopologyError) (seen in_order : Bool)
    → passes known kind seen in_order ≡ none
    → (known ≡ false) × (kind ≡ none) × (seen ≡ true) × (in_order ≡ true)
passes_all true kind seen in_order h = cc
passes_all false (some problem) seen in_order h = cc
passes_all false none false in_order h = cc
passes_all false none true false h = cc
passes_all false none true true h = (refl, refl, refl, refl)

or_rest-none :
    (problem rest : Option TopologyError)
    → or_rest problem rest ≡ none
    → (problem ≡ none) × (rest ≡ none)
or_rest-none none rest h = (refl, h)
or_rest-none (some problem) rest h = cc

node_problem_iff :
    (earlier : List GraphTopologyNode) (next : Dict (Option Text) ℕ) (node : GraphTopologyNode)
    → expected_ordinal next node.parent_id ≡ children node.parent_id earlier
    → (node_problem (map (λ n. n.id) earlier) next node ≡ none) ↔ IsNext earlier node
unfolding node_problem
node_problem_iff earlier next node tracked = (
  λ h.
      let (known, kind, seen, in_order) =
        passes_all (contains (map (λ n. n.id) earlier) node.id)
          (kind_problem node.kind node.parent_id)
          (parent_seen (map (λ n. n.id) earlier) node.parent_id)
          (node.ordinal == expected_ordinal next node.parent_id) h in
      record {
        is_new = known;
        shaped = (kind_problem_iff node.kind node.parent_id).0 kind;
        parent_before = seen;
        counted = (==_iff node.ordinal (expected_ordinal next node.parent_id)).0 in_order ∙ tracked;
      },
  λ n. simp (
    n.is_new,
    (kind_problem_iff node.kind node.parent_id).1 n.shaped,
    n.parent_before,
    (==_iff node.ordinal (expected_ordinal next node.parent_id)).1 (n.counted ∙ sym tracked),
  ),
)

expected-insert :
    (next : Dict (Option Text) ℕ) (earlier : List GraphTopologyNode) (node : GraphTopologyNode)
    → ((p : Option Text) → expected_ordinal next p ≡ children p earlier)
    → (p : Option Text)
    → expected_ordinal
        (Dict.insert node.parent_id (expected_ordinal next node.parent_id + 1) next)
        p
      ≡ children p (node ∷ earlier)
expected-insert next earlier node tracked p =
    let insertion =
      Dict.get-insert node.parent_id p (expected_ordinal next node.parent_id + 1) next in
    elim (Bool-cases (node.parent_id == p)) [
      | inl same ↦
          let e : node.parent_id ≡ p = (==_iff node.parent_id p).0 same in
          simp (insertion, same) (ap (λ n. n + 1) (ap (expected_ordinal next) e ∙ tracked p))
      | inr other ↦ simp (insertion, other) (tracked p)
    ]

nodes_problem_iff :
    (earlier : List GraphTopologyNode) (next : Dict (Option Text) ℕ)
    (nodes : List GraphTopologyNode)
    → ((p : Option Text) → expected_ordinal next p ≡ children p earlier)
    → (nodes_problem (map (λ n. n.id) earlier) next nodes ≡ none) ↔ IsParentFirst earlier nodes
unfolding nodes_problem
nodes_problem_iff earlier next [] tracked = (λ h. tt, λ h. refl)
nodes_problem_iff earlier next (node ∷ more) tracked =
    let here = node_problem_iff earlier next node (tracked node.parent_id) in
    let rest =
      nodes_problem_iff (node ∷ earlier)
        (Dict.insert node.parent_id (expected_ordinal next node.parent_id + 1) next) more
        (expected-insert next earlier node tracked) in
    (
      λ h. let (fine, others) = or_rest-none _ _ h in (here.0 fine, rest.0 others),
      λ (n, m). simp (here.1 n) (rest.1 m),
    )

-- The node checks of the validator pass exactly if each node has a new identifier, the shape of its
-- kind, a parent before it, and the number of its earlier siblings as its ordinal.
pub nodes-IsParentFirst :
    (nodes : List GraphTopologyNode) → (nodes_problem [] [] nodes ≡ none) ↔ IsParentFirst [] nodes
nodes-IsParentFirst nodes = nodes_problem_iff [] [] nodes (λ p. unfold Dict.get in refl)

&&-true : (a b : Bool) → (a && b) ≡ true → (a ≡ true) × (b ≡ true)
&&-true true b h = (refl, h)
&&-true false b h = cc

edges-declared :
    (ids : List Text) (edges : List GraphTopologyReference)
    → edges_problem ids edges ≡ none
    → ends_declared ids edges ≡ true
unfolding edges_problem
edges-declared ids edges h = elim (Bool-cases (ends_declared ids edges)) [
  | inl declared ↦ declared
  | inr undeclared ↦ cc (simp undeclared at h)
]

ends-declared :
    (ids : List Text) (edges : List GraphTopologyReference)
    → ends_declared ids edges ≡ true
    → All
        (λ edge. (contains ids edge.source_id ≡ true) × (contains ids edge.target_id ≡ true))
        edges
unfolding ends_declared
ends-declared ids [] h = tt
ends-declared ids (edge ∷ more) h =
    let (ends, rest) =
      &&-true (contains ids edge.source_id && contains ids edge.target_id) (ends_declared ids more)
        h in
    (
      &&-true (contains ids edge.source_id) (contains ids edge.target_id) ends,
      ends-declared ids more rest,
    )

-- From the node with this identifier one comes to a page by going from node to parent.
pub data IsRooted (nodes : List GraphTopologyNode) : Text → Type 0 where
  at_page : (node : GraphTopologyNode) → Memᴰ node nodes → node.kind ≡ page → IsRooted nodes node.id
  below :
      (node : GraphTopologyNode) (parent : Text)
      → Memᴰ node nodes
      → node.parent_id ≡ some parent
      → IsRooted nodes parent
      → IsRooted nodes node.id

earlier-IsRooted :
    (nodes earlier : List GraphTopologyNode) (id : Text)
    → All (λ n. IsRooted nodes n.id) earlier
    → contains (map (λ n. n.id) earlier) id ≡ true
    → IsRooted nodes id
earlier-IsRooted nodes [] id all h = cc h
earlier-IsRooted nodes (n ∷ earlier) id all h = elim (Bool-cases (n.id == id)) [
  | inl same ↦ subst (IsRooted nodes) ((==_iff n.id id).0 same) all.0
  | inr other ↦ earlier-IsRooted nodes earlier id all.1 (simp other at h)
]

shape-IsRooted :
    (nodes earlier : List GraphTopologyNode) (node : GraphTopologyNode) (kind : NodeKind)
    (parent : Option Text)
    → node.kind ≡ kind
    → node.parent_id ≡ parent
    → Memᴰ node nodes
    → All (λ n. IsRooted nodes n.id) earlier
    → HasShape kind parent
    → parent_seen (map (λ n. n.id) earlier) parent ≡ true
    → IsRooted nodes node.id
shape-IsRooted nodes earlier node page parent k p m all shape seen = at_page node m k
shape-IsRooted nodes earlier node block none k p m all shape seen = absurd (shape refl)
shape-IsRooted nodes earlier node block (some parent) k p m all shape seen =
    below node parent m p (earlier-IsRooted nodes earlier parent all seen)

more-IsRooted :
    (nodes earlier more : List GraphTopologyNode)
    → All (λ n. Memᴰ n nodes) more
    → All (λ n. IsRooted nodes n.id) earlier
    → IsParentFirst earlier more
    → All (λ n. IsRooted nodes n.id) more
more-IsRooted nodes earlier [] there all h = tt
more-IsRooted nodes earlier (node ∷ more) there all (n, rest) =
    let here : IsRooted nodes node.id =
      shape-IsRooted nodes earlier node node.kind node.parent_id refl refl there.0 all n.shaped
        n.parent_before in
    (here, more-IsRooted nodes (node ∷ earlier) more there.1 (here, all) rest)

own-Mem : (nodes : List GraphTopologyNode) → All (λ n. Memᴰ n nodes) nodes
own-Mem [] = tt
own-Mem (node ∷ more) = (Memᴰ.head refl, All-map _ _ more (λ n m. Memᴰ.tail m) (own-Mem more))

-- In a topology that validates, one comes from every node to a page by going from node to parent,
-- and every reference joins nodes of it.
pub validated-rooted :
    (result : GraphTopologyResult)
    → validate_canonical_preorder result ≡ none
    → All (λ n. IsRooted result.nodes n.id) result.nodes
      × All
          (λ edge.
            (contains (map (λ n. n.id) result.nodes) edge.source_id ≡ true)
            × (contains (map (λ n. n.id) result.nodes) edge.target_id ≡ true))
          result.edges
unfolding validate_canonical_preorder
validated-rooted result h =
    let ids = map (λ n. n.id) result.nodes in
    let (nodes, edges) = or_rest-none (nodes_problem [] [] result.nodes) _ h in
    (
      more-IsRooted result.nodes [] result.nodes (own-Mem result.nodes) tt
          ((nodes-IsParentFirst result.nodes).0 nodes),
      ends-declared ids result.edges (edges-declared ids result.edges edges),
    )
