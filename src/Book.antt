-- ===== src/Book.antt =====
-- The order book of baselines/fast_sim/hotpath.py.
pub mod Order
pub mod Level
pub mod Exchange
pub mod Execute
pub mod Enter
pub mod Cancel
pub mod Handle
pub mod Valid
pub mod Sorted
pub mod Precedence
pub mod Priority
pub mod Fill
pub mod Flat
pub mod Matching
pub mod Loop
pub mod Refinement
pub mod Conservation
pub mod Uncrossed
pub mod Limit
pub mod Handled
pub mod Conserved
pub mod Cached
mod Tests
