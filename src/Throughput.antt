-- ===== src/Throughput.antt =====
-- The awards beside the leaderboard, for throughput/.
pub mod Diagnostics
pub mod Frontier
pub mod Pareto
pub mod Front
pub mod Awards
pub mod Winners
pub mod Awarded
pub mod Tests
