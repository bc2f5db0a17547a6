-- ===== src/Warehouse.antt =====
-- internal/warehouse: the file that the analytics side reads, how it is built and how it is opened.
mod Tests
pub mod Shared
pub mod Build
