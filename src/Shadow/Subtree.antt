-- ===== src/Shadow/Subtree.antt =====
-- The subtree read of the Shadow DB (src/shadow/subtree.py).
pub mod Walk
pub mod Rows
pub mod Cycle
pub mod Query
pub mod Answer
pub mod Limits
pub mod Whole
pub mod Complete
pub mod Crossing
mod Tests
