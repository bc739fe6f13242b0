-- ===== src/Relay.antt =====
-- The UDP relay, noray/src/relay: addresses, table entries, the socket pool, the handler with its
-- listeners, and the background jobs.
pub mod Address
pub mod Entry
pub mod Pool
pub mod Limiter
pub mod Handler
pub mod Constraints
pub mod Cleanup
pub mod Dynamic
