-- ===== src/Store.antt =====
-- internal/store/sqlite/sqlite.go and internal/store/store.go.
pub mod Table
pub mod Schema
pub mod Exec
pub mod Hosts
pub mod Certificates
pub mod Events
pub mod Managed
pub mod Snapshots
