-- ===== src/Kernel.antt =====
-- The event queue and the kernel loop of baselines/fast_sim/hotpath.py.
pub mod Queue
pub mod State
pub mod Timely
mod Tests
