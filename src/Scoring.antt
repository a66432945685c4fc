-- ===== src/Scoring.antt =====
-- The gates and scores of qfbench2_track_simulation/scoring.py.
pub mod Files
pub mod Card
pub mod Contract
pub mod Integrity
pub mod Binding
pub mod Schema
pub mod Exactness
pub mod Score
pub mod Trusted
pub mod Scored
pub mod Bound
pub mod Exact
pub mod Blame
pub mod Faulty
pub mod Official
pub mod Admissible
pub mod Tests
