-- ===== src/Session/Service.antt =====
-- The read service (src/graph/session_read_service.py). `now` is what the clock answers in a call.
use matryca_plumber.Prelude.{
  ℕ, Bool, true, false, not, Option, none, some, ◌==◌, leb, if◌then◌else◌,
}
use matryca_plumber.Prelude.Text.{Text, text_eq}
use matryca_plumber.Session.Models.{
  Capability, has_capability, SessionState, GraphSession, GraphIdentityResponse,
}
use matryca_plumber.Session.Topology.{GraphTopologyResult}

pub record Service : Type 0 where
  pub session : GraphSession
  pub state : SessionState
  pub topology : Option GraphTopologyResult

-- `GraphSessionReadService(session, topology=topology)`
unfoldable pub serve : GraphSession → Option GraphTopologyResult → Service
serve session topology = record { session = session; state = session.state; topology = topology }

pub data ReadError : Type 0 where
  session_binding_rejected session_is_closed session_expired foreign_graph_binding_rejected
        graph_identify_unavailable graph_topology_unavailable :
      ReadError

pub data Answer {ℓ} (A : Type ℓ) : Type ℓ where
  reply : A → Answer A
  refuse : ReadError → Answer A

pub record GraphTopologyResponse : Type 0 where
  pub session_id : Text
  pub graph_id : Text
  pub source_revision : Text
  pub result : GraphTopologyResult

unfoldable pub closed_from : SessionState → SessionState
closed_from SessionState.active = SessionState.closed
closed_from SessionState.closed = SessionState.closed
closed_from SessionState.expired = SessionState.expired

unfoldable pub close : Service → Service
close s = record s { state = closed_from s.state }

abbrev pub is_past : Option ℕ → ℕ → Bool
is_past none now = false
is_past (some deadline) now = leb deadline now

-- The state after `_require_active_session`, and its error.
unfoldable pub required : SessionState → Bool → SessionState × Option ReadError
required SessionState.closed past = (SessionState.closed, some session_is_closed)
required SessionState.expired past = (SessionState.expired, some session_expired)
required SessionState.active true = (SessionState.expired, some session_expired)
required SessionState.active false = (SessionState.active, none)

unfoldable pub require_active_session : ℕ → Service → Service × Option ReadError
require_active_session now s =
    let (state, problem) = required s.state (is_past s.session.expires_at now) in
    (record s { state = state }, problem)

-- The error of the session, or else that of a foreign graph.
unfoldable pub then_graph : Bool → Option ReadError → Option ReadError
then_graph same_graph (some problem) = some problem
then_graph true none = none
then_graph false none = some foreign_graph_binding_rejected

-- The checks that both requests share, before the one of the capability.
unfoldable pub bound : ℕ → Text → Text → Service → Service × Option ReadError
bound now session_id graph_id s =
    let (s', problem) = require_active_session now s in
    if not (session_id == s.session.id)
    then (s, some session_binding_rejected)
    else (s', then_graph (graph_id == s.session.graph_id) problem)

abbrev pub identity_of : GraphSession → GraphIdentityResponse
identity_of session = record {
  session_id = session.id;
  graph_id = session.graph_id;
  source_revision = session.source_revision;
  result_graph_id = session.graph_id;
}

unfoldable pub identity_answer : GraphSession → Option ReadError → Answer GraphIdentityResponse
identity_answer session (some error) = refuse error
identity_answer session none =
    if not (has_capability session.capabilities Capability.graph_identify)
    then refuse graph_identify_unavailable
    else reply (identity_of session)

unfoldable pub identify : ℕ → Text → Text → Service → Service × Answer GraphIdentityResponse
identify now session_id graph_id s =
    let (s', problem) = bound now session_id graph_id s in (s', identity_answer s.session problem)

unfoldable pub topology_answer :
    GraphSession → Option GraphTopologyResult → Option ReadError → Answer GraphTopologyResponse
topology_answer session topology (some error) = refuse error
topology_answer session none none = refuse graph_topology_unavailable
topology_answer session (some result) none =
    if not (has_capability session.capabilities Capability.graph_topology_snapshot_complete)
    then refuse graph_topology_unavailable
    else reply (record {
      session_id = session.id;
      graph_id = session.graph_id;
      source_revision = session.source_revision;
      result = result;
    })

unfoldable pub topology_snapshot :
    ℕ → Text → Text → Service → Service × Answer GraphTopologyResponse
topology_snapshot now session_id graph_id s =
    let (s', problem) = bound now session_id graph_id s in
    (s', topology_answer s.session s.topology problem)
