-- ===== src/Shadow.antt =====
-- The Shadow DB, the external read cache of the graph (src/shadow).
pub mod Agreement
pub mod Bootstrap
pub mod Console
pub mod Database
pub mod Errors
pub mod Drift
pub mod FailClosed
pub mod Health
pub mod Key
pub mod Meta
pub mod Outline
pub mod Process
pub mod Quarantine
pub mod StateApi
pub mod Sync
pub mod SyncFailure
pub mod Tables
pub mod Writer
pub mod Rebuild
pub mod Samples
mod Tests
mod FailureTests
mod ViewTests
mod CollisionTests
pub mod Runtime
pub mod Subtree
