-- ===== src/Session.antt =====
-- The session-bound read of one graph (src/graph/session_read_service.py and its models).
pub mod Models
pub mod Service
pub mod Lifecycle
pub mod Topology
pub mod Canonical
mod Tests
