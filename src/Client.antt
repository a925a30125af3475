-- ===== src/Client.antt =====
-- The client's SDK, client-sdk/src.
pub mod Encryption
pub mod Delivery
pub mod Nonces
pub mod Builder
pub mod Signing
pub mod Requests
pub mod Calls
