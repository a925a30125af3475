-- ===== src/Observer.antt =====
-- backend/observer: it reads the events of the contracts, and reports them to the gateway.
pub mod Config
pub mod Felts
pub mod Posting
pub mod Events
pub mod Indexer
