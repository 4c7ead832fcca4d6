-- ===== src/Store.antt =====
-- internal/store: the PostgreSQL tables and the operations on them.
pub mod Database
pub mod Incidents
pub mod Events
pub mod Pages
pub mod Partitions
