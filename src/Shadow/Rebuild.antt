-- ===== src/Shadow/Rebuild.antt =====
-- What a full rebuild leaves behind (src/shadow/bootstrap.py): the account of every source path,
-- kept by each page, and the health after it.
pub mod Frames
pub mod Tally
pub mod Steps
pub mod Ready
pub mod Served
pub mod Raising
