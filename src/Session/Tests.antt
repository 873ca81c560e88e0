-- ===== src/Session/Tests.antt =====
-- The theorems on a session at one session and one topology.
use matryca_plumber.Prelude.{
  ℕ, ◌≡◌, ◌≢◌, ◌↔◌, refl, true, none, some, List, [], ◌∷◌, contains, map, All,
}
use matryca_plumber.Prelude.Text.{Text, text, text_eq}
use matryca_plumber.Prelude.Sort.{sorted, text_leb}
use matryca_plumber.Prelude.Dict
use matryca_plumber.Session.Models.{
  Capability, has_capability, SessionState, GraphSession, GraphIdentityResponse,
}
use matryca_plumber.Session.Topology.{
  page, block, GraphTopologyNode, GraphTopologyResult, nodes_problem, validate_canonical_preorder,
  node_problem, kind_problem, edges_problem, ends_declared,
}
use matryca_plumber.Session.Canonical.{
  IsRooted, IsParentFirst, nodes-IsParentFirst, validated-rooted,
}
use matryca_plumber.Session.Service.{
  Service, reply, identity_of, identify, topology_snapshot, GraphTopologyResponse,
}
use matryca_plumber.Session.Lifecycle.{
  IsBound, identify-answers, topology_of, topology-answers, Call, close_session, ask_identity,
  after_calls, ended-final,
}

abbrev session : GraphSession
session = record {
  id = text "s1";
  graph_id = text "g1";
  source_revision = text "r1";
  capabilities = Capability.graph_identify ∷ [];
  state = SessionState.active;
  expires_at = some 10;
}

abbrev service : Service
service = record { session = session; state = SessionState.active; topology = none }

identify-answers_example :
    ((identify 3 (text "s1") (text "g1") service).1 ≡ reply (identity_of session)) ↔ (
      IsBound 3 (text "s1") (text "g1") service
      × (has_capability session.capabilities Capability.graph_identify ≡ true)
      × (identity_of session ≡ identity_of session))
identify-answers_example = identify-answers 3 (text "s1") (text "g1") service (identity_of session)

abbrev closed_service : Service
closed_service = record service { state = SessionState.closed }

closed_is_not_active : SessionState.closed ≢ SessionState.active
closed_is_not_active h = cc

abbrev calls : List Call
calls = ask_identity 3 (text "s1") (text "g1") ∷ close_session ∷ []

ended-final_example :
    ((after_calls calls closed_service).state ≡ SessionState.closed)
    × ((now : ℕ) (session_id graph_id : Text) (r : GraphIdentityResponse)
        → (identify now session_id graph_id (after_calls calls closed_service)).1 ≢ reply r)
    × ((now : ℕ) (session_id graph_id : Text) (r : GraphTopologyResponse)
        → (topology_snapshot now session_id graph_id (after_calls calls closed_service)).1
          ≢ reply r)
ended-final_example = ended-final calls closed_service closed_is_not_active

abbrev nodes : List GraphTopologyNode
nodes =
    record { id = text "p"; kind = page; parent_id = none; ordinal = 0 }
    ∷ record { id = text "b"; kind = block; parent_id = some (text "p"); ordinal = 0 }
    ∷ record { id = text "c"; kind = block; parent_id = some (text "p"); ordinal = 1 }
    ∷ []

abbrev topology : GraphTopologyResult
topology = record {
  topology_id = text "t";
  nodes = nodes;
  edges = record { source_id = text "b"; target_id = text "c" } ∷ [];
  source_revision = text "r1";
}

nodes-IsParentFirst_example : (nodes_problem [] [] nodes ≡ none) ↔ IsParentFirst [] nodes
nodes-IsParentFirst_example = nodes-IsParentFirst nodes

topology_validates : validate_canonical_preorder topology ≡ none
unfolding validate_canonical_preorder nodes_problem node_problem kind_problem edges_problem
    ends_declared Dict.get Dict.insert sorted text_leb
topology_validates = refl

validated-rooted_example :
    All (λ n. IsRooted nodes n.id) nodes
    × All
        (λ edge.
          (contains (map (λ n. n.id) nodes) edge.source_id ≡ true)
          × (contains (map (λ n. n.id) nodes) edge.target_id ≡ true))
        topology.edges
validated-rooted_example = validated-rooted topology topology_validates

-- Two pages, and then a block of the first: the order is accepted.
abbrev level_order : List GraphTopologyNode
level_order =
    record { id = text "p"; kind = page; parent_id = none; ordinal = 0 }
    ∷ record { id = text "q"; kind = page; parent_id = none; ordinal = 1 }
    ∷ record { id = text "b"; kind = block; parent_id = some (text "p"); ordinal = 0 }
    ∷ []

level_order_passes : nodes_problem [] [] level_order ≡ none
unfolding nodes_problem node_problem kind_problem Dict.get Dict.insert
level_order_passes = refl

abbrev reader : Service
reader = record {
  session = record session { capabilities = Capability.graph_topology_snapshot_complete ∷ [] };
  state = SessionState.active;
  topology = some topology;
}

topology-answers_example :
    ((topology_snapshot 3 (text "s1") (text "g1") reader).1
      ≡ reply (topology_of reader.session topology))
    ↔ (IsBound 3 (text "s1") (text "g1") reader
        × (has_capability reader.session.capabilities Capability.graph_topology_snapshot_complete
            ≡ true)
        × (some topology ≡ some topology)
        × (topology_of reader.session topology ≡ topology_of reader.session topology))
topology-answers_example =
    topology-answers 3 (text "s1") (text "g1") reader (topology_of reader.session topology)
