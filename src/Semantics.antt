-- ===== src/Semantics.antt =====
-- The semantic checks of qfbench2_track_simulation/semantics.py.
pub mod Values
pub mod Ledger
pub mod Counting
pub mod Faithful
pub mod Causal
pub mod Exact
pub mod Trace
pub mod Coverage
pub mod TierA
pub mod Reference
pub mod Sanity
pub mod Sane
pub mod Attempt
pub mod Proximity
pub mod Regression
pub mod Proximate
pub mod Dispatch
pub mod Faults
pub mod Incomplete
pub mod Tests
pub mod Samples
pub mod Cases
