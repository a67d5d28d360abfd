-- ===== src/Detections.antt =====
-- ingest_api/services.py: from events to detections and investigations.
pub mod Rules
pub mod Record
pub mod Materialize
pub mod Emitted
pub mod Investigated
pub mod Kept
pub mod Recorded
pub mod Processed
pub mod Materialized
pub mod Workable
pub mod Stats
