-- ===== src/Search.antt =====
-- The lexical search over a graph and its caches (src/graph/generational_cache.py).
pub mod Corpus
pub mod Query
pub mod Cached
pub mod Bounds
pub mod Counts
pub mod Graphs
mod Tests
