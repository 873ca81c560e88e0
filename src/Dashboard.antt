-- ===== src/Dashboard.antt =====
-- The dashboard read: one worker process at a time, under a permit of the server process
-- (src/agent/dashboard_job.py, dashboard_process.py and dashboard_protocol.py).
pub mod Protocol
pub mod Jobs
pub mod Owners
pub mod Permit
pub mod Phases
pub mod Chunks
mod Tests
mod PhaseTests
