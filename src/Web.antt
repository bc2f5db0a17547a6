-- ===== src/Web.antt =====
-- internal/web: the queries that a page shows, and the long runs that a page starts.
mod Tests
pub mod QueryLog
pub mod Runs
pub mod Console
pub mod Pages
pub mod Catalog
