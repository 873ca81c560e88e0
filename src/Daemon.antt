-- ===== src/Daemon.antt =====
-- The checkpoint of the maintenance daemon and the queue of its pages (src/agent).
pub mod Json
pub mod Journey
pub mod Ledger
pub mod Merge
pub mod Migration
pub mod Backoff
pub mod Recent
pub mod Checkpoint
pub mod RoundTrip
pub mod Storage
pub mod Writable
pub mod Recovery
pub mod Queue
pub mod Settled
mod Tests
mod StorageTests
