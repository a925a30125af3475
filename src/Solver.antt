-- ===== src/Solver.antt =====
-- The reference solver, solver-reference/src.
pub mod Monitor
pub mod Reception
pub mod Matching
pub mod Plan
pub mod Ordering
pub mod Liquidity
pub mod Inbox
pub mod Config
pub mod Chain
pub mod Round
