-- ===== src/Batch.antt =====
-- Batch units: qfbench2_track_simulation/batch.py.
pub mod Isolation
pub mod Isolated
pub mod Aggregate
mod Tests
