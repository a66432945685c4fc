-- ===== src/Limits.antt =====
-- The rules of qfbench2_track_simulation/domain.py, limits.py and host_metrics.py.
pub mod Domain
pub mod Covers
pub mod Paths
pub mod Partition
pub mod Host
pub mod Tests
