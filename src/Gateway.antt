-- ===== src/Gateway.antt =====
-- backend/gateway: the HTTP service between the traders, the solvers and the chain.
pub mod Types
pub mod Exec
pub mod Table
pub mod Hex
pub mod Clock
pub mod Crypto
pub mod Auth
pub mod RateLimit
pub mod Validate
pub mod Hashes
pub mod Env
pub mod Settings
pub mod Submit
pub mod Cancel
pub mod Reconcile
pub mod Batches
pub mod Query
pub mod Ledger
pub mod Pool
pub mod Chain
pub mod Lifecycle
pub mod SolverFetch
pub mod Websocket
