-- ===== src/Graph.antt =====
-- The graph of Markdown pages (src/graph).
pub mod PagePath
pub mod WritePolicy
pub mod ReadOnly
mod Tests
pub mod PageLocks
pub mod HeldLocks
