-- ===== src/Fleet.antt =====
-- ingest_api/services.py: the fleet's inventory, its health, and the decoys that report.
pub mod Rows
pub mod Refresh
pub mod Inventory
pub mod Report
pub mod Heartbeat
pub mod Step
pub mod Primitives
pub mod Valid
pub mod Beaten
pub mod Reports
pub mod Thresholds
