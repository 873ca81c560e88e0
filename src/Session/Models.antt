-- ===== src/Session/Models.antt =====
-- The values of a read session (src/graph/session_read_models.py). A deadline is a number of ticks
-- of the monotonic clock.
use matryca_plumber.Prelude.{
  ℕ, Bool, true, false, ◌&&◌, ◌||◌, Option, none, some, List, [], ◌∷◌, leb, length, contains, all,
  if◌then◌else◌, nat_eq,
}
use matryca_plumber.Prelude.Text.{Text, text, text_eq}

-- The members of `GraphReadCapability` and `GraphTopologyCapability`.
pub data Capability : Type 0 where
  graph_identify graph_topology_snapshot_complete : Capability

abbrev pub same_capability : Capability → Capability → Bool
same_capability graph_identify graph_identify = true
same_capability graph_topology_snapshot_complete graph_topology_snapshot_complete = true
same_capability _ _ = false

-- `capability in capabilities`
unfoldable pub has_capability : List Capability → Capability → Bool
has_capability [] c = false
has_capability (d ∷ more) c = same_capability d c || has_capability more c

pub data SessionState : Type 0 where
  active closed expired : SessionState

is_letter_or_digit : ℕ → Bool
is_letter_or_digit c = (leb 65 c && leb c 90) || (leb 97 c && leb c 122) || (leb 48 c && leb c 57)

is_opaque_char : ℕ → Bool
is_opaque_char c = is_letter_or_digit c || contains (text "._:-") c

matches_opaque : Text → Bool
matches_opaque [] = false
matches_opaque (c ∷ s) = is_letter_or_digit c && all is_opaque_char s

-- At most 128 characters that match `_OPAQUE_ID`.
unfoldable pub is_opaque_id : Text → Bool
unfolding matches_opaque is_opaque_char is_letter_or_digit
is_opaque_id value = leb (length value) 128 && matches_opaque value

pub record GraphSourceIdentity : Type 0 where
  pub graph_id : Text
  pub source_revision : Text

pub record GraphSession : Type 0 where
  pub id : Text
  pub graph_id : Text
  pub source_revision : Text
  pub capabilities : List Capability
  pub state : SessionState
  pub expires_at : Option ℕ

-- `capabilities or frozenset({GRAPH_IDENTIFY})`: the empty set is replaced too.
abbrev pub or_identify : Option (List Capability) → List Capability
or_identify none = graph_identify ∷ []
or_identify (some []) = graph_identify ∷ []
or_identify (some (c ∷ more)) = c ∷ more

-- `GraphSession.from_source`; `none` is the `ValidationError` of an identifier.
unfoldable pub from_source :
    Text → GraphSourceIdentity → Option ℕ → Option (List Capability) → Option GraphSession
from_source session_id source expires_at capabilities =
    if is_opaque_id session_id
      && is_opaque_id source.graph_id
      && is_opaque_id source.source_revision
    then some (record {
      id = session_id;
      graph_id = source.graph_id;
      source_revision = source.source_revision;
      capabilities = or_identify capabilities;
      state = active;
      expires_at = expires_at;
    })
    else none

pub record GraphIdentityResponse : Type 0 where
  pub session_id : Text
  pub graph_id : Text
  pub source_revision : Text
  pub result_graph_id : Text
