-- ===== src/Session/Lifecycle.antt =====
-- The life of a session: who is answered, and that its end is final.
use matryca_plumber.Prelude.{
  ℕ, ◌≡◌, ◌≢◌, ◌↔◌, refl, sym, ap, ◌∙◌, Bool, true, false, Option, none, some, List, [], ◌∷◌, ◌==◌,
  subst, ==_iff, Bool-cases, inl, inr,
}
use matryca_plumber.Prelude.Text.{Text, text_eq}
use matryca_plumber.Session.Models.{
  Capability, has_capability, SessionState, GraphSession, GraphIdentityResponse,
}
use matryca_plumber.Session.Topology.{GraphTopologyResult}
use matryca_plumber.Session.Service.{
  GraphTopologyResponse, topology_answer, Service, reply, ReadError, close, closed_from, is_past,
  required, require_active_session, bound, identity_of, identify, identity_answer, then_graph,
  topology_snapshot,
}

-- The request is bound to the session and its graph, and the session is active at that time.
pub record IsBound (now : ℕ) (session_id graph_id : Text) (s : Service) : Type 0 where
  pub same_session : session_id ≡ s.session.id
  pub same_graph : graph_id ≡ s.session.graph_id
  pub is_active : s.state ≡ SessionState.active
  pub in_time : is_past s.session.expires_at now ≡ false

reply_inj {ℓ} : {A : Type ℓ} {a b : A} → reply a ≡ reply b → a ≡ b
reply_inj h = cc

required-none :
    (state : SessionState) (past : Bool)
    → (required state past).1 ≡ none
    → (state ≡ SessionState.active) × (past ≡ false)
unfolding required
required-none SessionState.closed past h = cc
required-none SessionState.expired past h = cc
required-none SessionState.active true h = cc
required-none SessionState.active false h = (refl, refl)

then_graph-none :
    (same : Bool) (problem : Option ReadError)
    → then_graph same problem ≡ none
    → (same ≡ true) × (problem ≡ none)
unfolding then_graph
then_graph-none same (some problem) h = cc
then_graph-none true none h = (refl, refl)
then_graph-none false none h = cc

bound-IsBound :
    (now : ℕ) (session_id graph_id : Text) (s : Service)
    → (bound now session_id graph_id s).1 ≡ none
    → IsBound now session_id graph_id s
unfolding bound require_active_session
bound-IsBound now session_id graph_id s h = elim (Bool-cases (session_id == s.session.id)) [
  | inr other ↦ cc (simp other at h)
  | inl same ↦
      let problem = (required s.state (is_past s.session.expires_at now)).1 in
      let (here, quiet) =
        then_graph-none (graph_id == s.session.graph_id) problem (simp same at h) in
      let (is_active, in_time) = required-none s.state (is_past s.session.expires_at now) quiet in
      record {
        same_session = (==_iff session_id s.session.id).0 same;
        same_graph = (==_iff graph_id s.session.graph_id).0 here;
        is_active = is_active;
        in_time = in_time;
      }
]

required-active :
    (state : SessionState) (past : Bool)
    → state ≡ SessionState.active
    → past ≡ false
    → (required state past).1 ≡ none
unfolding required
required-active SessionState.closed past h k = cc
required-active SessionState.expired past h k = cc
required-active SessionState.active true h k = cc
required-active SessionState.active false h k = refl

IsBound-bound :
    (now : ℕ) (session_id graph_id : Text) (s : Service)
    → IsBound now session_id graph_id s
    → (bound now session_id graph_id s).1 ≡ none
unfolding bound require_active_session then_graph
IsBound-bound now session_id graph_id s b = simp (
  (==_iff session_id s.session.id).1 b.same_session,
  (==_iff graph_id s.session.graph_id).1 b.same_graph,
  required-active s.state (is_past s.session.expires_at now) b.is_active b.in_time,
)

identity_answer-reply :
    (session : GraphSession) (problem : Option ReadError) (r : GraphIdentityResponse)
    → identity_answer session problem ≡ reply r
    → (problem ≡ none)
      × (has_capability session.capabilities Capability.graph_identify ≡ true)
      × (r ≡ identity_of session)
unfolding identity_answer
identity_answer-reply session (some problem) r h = cc
identity_answer-reply session none r h =
    elim (Bool-cases (has_capability session.capabilities Capability.graph_identify)) [
      | inl able ↦ (refl, able, sym (reply_inj (simp able at h)))
      | inr unable ↦ cc (simp unable at h)
    ]

-- `identify` answers exactly the requests that name the session and its graph, while the session
-- is active and before its deadline, if the session has the capability, with the identity of the
-- session.
pub identify-answers :
    (now : ℕ) (session_id graph_id : Text) (s : Service) (r : GraphIdentityResponse)
    → ((identify now session_id graph_id s).1 ≡ reply r) ↔ (
        IsBound now session_id graph_id s
        × (has_capability s.session.capabilities Capability.graph_identify ≡ true)
        × (r ≡ identity_of s.session))
unfolding identify identity_answer
identify-answers now session_id graph_id s r = (
  λ h.
      let (quiet, able, same) =
        identity_answer-reply s.session (bound now session_id graph_id s).1 r h in
      (bound-IsBound now session_id graph_id s quiet, able, same),
  λ (b, able, same). simp (IsBound-bound now session_id graph_id s b, able) (ap reply (sym same)),
)

-- What the answer to a topology request says of the session.
abbrev pub topology_of : GraphSession → GraphTopologyResult → GraphTopologyResponse
topology_of session result = record {
  session_id = session.id;
  graph_id = session.graph_id;
  source_revision = session.source_revision;
  result = result;
}

topology_answer-reply :
    (session : GraphSession) (topology : Option GraphTopologyResult) (problem : Option ReadError)
    (r : GraphTopologyResponse)
    → topology_answer session topology problem ≡ reply r
    → (problem ≡ none)
      × (has_capability session.capabilities Capability.graph_topology_snapshot_complete ≡ true)
      × (topology ≡ some r.result)
      × (r ≡ topology_of session r.result)
unfolding topology_answer
topology_answer-reply session topology (some problem) r h = cc h
topology_answer-reply session none none r h = cc h
topology_answer-reply session (some result) none r h =
    elim (Bool-cases
      (has_capability session.capabilities Capability.graph_topology_snapshot_complete)) [
        | inl able ↦
            let e : topology_of session result ≡ r = reply_inj (simp able at h) in
            (
              refl,
              able,
              ap (λ (a : GraphTopologyResponse). some a.result) e,
              subst (λ (a : GraphTopologyResponse). a ≡ topology_of session a.result) e refl,
            )
        | inr unable ↦ cc (simp unable at h)
      ]

-- `topology_snapshot` answers exactly the requests that name the session and its graph, while the
-- session is active and before its deadline, if the session has the capability and a topology, with
-- that topology.
pub topology-answers :
    (now : ℕ) (session_id graph_id : Text) (s : Service) (r : GraphTopologyResponse)
    → ((topology_snapshot now session_id graph_id s).1 ≡ reply r) ↔ (
        IsBound now session_id graph_id s
        × (has_capability s.session.capabilities Capability.graph_topology_snapshot_complete ≡ true)
        × (s.topology ≡ some r.result)
        × (r ≡ topology_of s.session r.result))
unfolding topology_snapshot topology_answer
topology-answers now session_id graph_id s r = (
  λ h.
      let (quiet, able, given, same) =
        topology_answer-reply s.session s.topology (bound now session_id graph_id s).1 r h in
      (bound-IsBound now session_id graph_id s quiet, able, given, same),
  λ (b, able, given, same).
      simp (IsBound-bound now session_id graph_id s b, able, given) (ap reply (sym same)),
)

-- The calls that a client makes, with the answer of the clock in each.
pub data Call : Type 0 where
  close_session : Call
  ask_identity : ℕ → Text → Text → Call
  ask_topology : ℕ → Text → Text → Call

abbrev pub after_call : Call → Service → Service
after_call close_session s = close s
after_call (ask_identity now session_id graph_id) s = (identify now session_id graph_id s).0
after_call (ask_topology now session_id graph_id) s =
    (topology_snapshot now session_id graph_id s).0

abbrev pub after_calls : List Call → Service → Service
after_calls [] s = s
after_calls (call ∷ more) s = after_calls more (after_call call s)

required-ended :
    (state : SessionState) (past : Bool)
    → state ≢ SessionState.active
    → (required state past).0 ≡ state
unfolding required
required-ended SessionState.closed past ended = refl
required-ended SessionState.expired past ended = refl
required-ended SessionState.active past ended = absurd (ended refl)

closed_from-ended : (state : SessionState) → state ≢ SessionState.active → closed_from state ≡ state
unfolding closed_from
closed_from-ended SessionState.closed ended = refl
closed_from-ended SessionState.expired ended = refl
closed_from-ended SessionState.active ended = absurd (ended refl)

bound-ended :
    (now : ℕ) (session_id graph_id : Text) (s : Service)
    → s.state ≢ SessionState.active
    → (bound now session_id graph_id s).0.state ≡ s.state
unfolding bound require_active_session
bound-ended now session_id graph_id s ended = elim (Bool-cases (session_id == s.session.id)) [
  | inl same ↦ simp same (required-ended s.state _ ended)
  | inr other ↦ simp other
]

call-ended :
    (call : Call) (s : Service)
    → s.state ≢ SessionState.active
    → (after_call call s).state ≡ s.state
unfolding identify topology_snapshot close
call-ended close_session s ended = closed_from-ended s.state ended
call-ended (ask_identity now session_id graph_id) s ended =
    bound-ended now session_id graph_id s ended
call-ended (ask_topology now session_id graph_id) s ended =
    bound-ended now session_id graph_id s ended

calls-ended :
    (calls : List Call) (s : Service)
    → s.state ≢ SessionState.active
    → (after_calls calls s).state ≡ s.state
calls-ended [] s ended = refl
calls-ended (call ∷ more) s ended =
    let same = call-ended call s ended in
    calls-ended more (after_call call s) (λ e. ended (sym same ∙ e)) ∙ same

-- A session that is closed or expired stays so, whatever is called and whatever the clock says, and
-- neither `identify` nor `topology_snapshot` answers.
pub ended-final :
    (calls : List Call) (s : Service)
    → s.state ≢ SessionState.active
    → ((after_calls calls s).state ≡ s.state)
      × ((now : ℕ) (session_id graph_id : Text) (r : GraphIdentityResponse)
          → (identify now session_id graph_id (after_calls calls s)).1 ≢ reply r)
      × ((now : ℕ) (session_id graph_id : Text) (r : GraphTopologyResponse)
          → (topology_snapshot now session_id graph_id (after_calls calls s)).1 ≢ reply r)
ended-final calls s ended = (
  calls-ended calls s ended,
  λ now session_id graph_id r h.
      let (b, able, same) =
        (identify-answers now session_id graph_id (after_calls calls s) r).0 h in
      still b.is_active,
  λ now session_id graph_id r h.
      let (b, able, given, same) =
        (topology-answers now session_id graph_id (after_calls calls s) r).0 h in
      still b.is_active,
)
  where
    still : (after_calls calls s).state ≢ SessionState.active
    still h = ended (sym (calls-ended calls s ended) ∙ h)
