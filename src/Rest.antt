-- ===== src/Rest.antt =====
-- rest: the HTTP server.
pub mod Router
mod Tests
