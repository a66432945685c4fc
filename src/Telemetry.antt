-- ===== src/Telemetry.antt =====
-- Ranked timing: qfbench2_track_simulation/telemetry.py.
pub mod Verdict
pub mod Timing
pub mod Ranked
mod Tests
