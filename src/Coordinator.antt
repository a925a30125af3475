-- ===== src/Coordinator.antt =====
-- backend/coordinator: the scheduler that closes the batches and finalises their auctions.
pub mod Config
pub mod Schedule
pub mod Round
pub mod Chain
