-- ===== src/Search.antt =====
-- core/search: the tree of routes.
pub mod Tree
mod Tests
