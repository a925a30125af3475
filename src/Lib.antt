-- ===== src/Lib.antt =====
-- BlindMarkets, the off-chain part: a gateway that takes encrypted trading intents, a coordinator that
-- cuts the time into batches and runs their auctions on Starknet, an observer that reports the chain's
-- events to the gateway, a client library and a reference solver. This library models the parts of it
-- that decide what happens to an intent and to the amounts that are pending for it.
--
-- The parts, and where they stand:
--   Gateway/Submit, Gateway/Submit/Checks: `submit_intent` of backend/gateway/src/api.rs. `screen` is what
--     comes before the transaction, `review` in it the checks of signature, plaintext, hashes and
--     deadline; `accept` is the transaction (`store_intent`), the commit on the chain (`commit_intent`,
--     with `undo_intent` where it fails) and the broadcast.
--   Gateway/Validate, Gateway/Hex, Gateway/Hashes: the validators and the commitments of api.rs.
--   Gateway/Cancel, Gateway/Reconcile, Gateway/Batches, Gateway/Query, Gateway/SolverFetch:
--     `cancel_intent`, `reconcile_onchain_intent`, the three batch handlers, the listings and
--     `get_solver_batch_intents` of api.rs, under their names.
--   Gateway/Table: the SQL statements of api.rs as functions on the tables of backend/gateway/migrations.
--   Gateway/Auth, Gateway/Crypto, Gateway/RateLimit, Gateway/Ledger, Gateway/Pool, Gateway/Clock: auth.rs,
--     crypto.rs, rate_limiter.rs, pending_ledger.rs, ciphertext_pool.rs, and the clock of api.rs.
--   Gateway/Websocket: the connection of a solver, of backend/gateway/src/websocket.rs; Feed below it is
--     what a connection promises, without encryption.
--   Settings, Gateway/Settings: what the config.rs files share, and backend/gateway/src/config.rs.
--   Gateway/Lifecycle: the requests that write, routed in backend/gateway/src/main.rs, in any sequence.
--   Coordinator/Config, Coordinator/Schedule, Coordinator/Round: backend/coordinator/src/config.rs and
--     batch_scheduler.rs.
--   Observer/Config, Observer/Felts, Observer/Posting, Observer/Events, Observer/Indexer:
--     backend/observer/src/config.rs and indexer.rs.
--   Client/Encryption, Client/Nonces, Client/Builder: client-sdk/src/encryption.rs, nonce_tracker.rs and
--     intent_builder.rs. Client/Requests, Client/Calls: gateway_client.rs. Http: the answers to a request.
--     Json: the numbers of an intent's JSON text, for gateway and solver.
--     Client/Signing: signing.rs.
--   Chain, Gateway/Chain, Coordinator/Chain, Solver/Chain: the calldata of the three starknet_client.rs.
--   Solver/Config, Solver/Monitor, Solver/Inbox, Solver/Matching, Solver/Liquidity, Solver/Plan:
--     solver-reference/src/config.rs, the decryption and the messages of intent_monitor.rs, with the fetch
--     of missing intents of main.rs, matching_engine.rs, liquidity_aggregator.rs, and the plan of
--     solution_builder.rs.
--   Solver/Ordering, Solver/Round: solver-reference/src/main.rs, with `build_solution`: the order of a
--     batch from the gateway, and what is done with a closed batch.
--   Base: text, lists, numbers. Gateway/Exec/Rules: the rules for handlers. Witnesses: the theorems at
--     concrete inputs.
--
-- A handler is a function from the world (tables, Redis, metrics, broadcasts) to an answer and a world
-- (Gateway/Exec), so what was done before an early return stays done. `rejected` is a return through
-- `reject`, which counts; `aborted` is any other. A round trip to PostgreSQL or Redis fails where the
-- schedule `faults` says so, which the theorems leave open. Handlers run one after the other: two
-- requests do not interleave. A transaction restores the tables where it fails.
--
-- Numbers: u64 and u128 sums wrap where the code's would in a release build; NUMERIC amounts are
-- natural numbers, on which subtraction stops at 0, as GREATEST(.., 0) does. Timestamps are seconds;
-- the conversion of a deadline to i64 and of a time to a NaiveDateTime is taken to be in range. Statuses
-- are data types for the texts in the tables. The rows of a table stand in the order of insertion, which
-- stands for `sequence` and `created_at`. `decimal` and `hexadecimal` take as fuel the number and one
-- more, which has at least as many digits. The observer posts with fuel 5, one for each attempt, which is
-- enough, and the client sends with fuel max_retries + 1. The observer's polls and the solver's pages of
-- a batch end only if what they ask does: their fuel is an argument, and their theorems say how much is
-- enough.
--
-- Parameters, since their code is not in the repository: serde_json, the Pedersen hash, the reading of
-- field elements, hex, X25519, AES-GCM, ECDSA, the JSON-RPC call to an account, the chain's answers to commit
-- and cancel, Unicode's table of uppercase letters, the HTTP and chain answers of a round of the
-- coordinator, the answers of the node, the exchanges and the proof service, and the environment.
-- `Client.Delivery.IsSound` states what is asked of hex, X25519 and AES-GCM.
--
-- Not modelled: metrics and startup, the signing, gas and sending of transactions, which are calls of
-- libraries, the solver's handshake and bond manager, and the contracts and the frontend, which are
-- written in other languages.
mod Base
pub mod Http
pub mod Json
pub mod Chain
pub mod Settings
pub mod Gateway
pub mod Coordinator
pub mod Client
pub mod Observer
pub mod Solver
mod Witnesses
