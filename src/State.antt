-- ===== src/State.antt =====
-- The state of the manager, src/manager/state.rs.
pub mod Requests
pub mod Fingerprints
pub mod Acks
pub mod Batches
pub mod Dispatch
pub mod Streams
pub mod Addresses
pub mod Sessions
pub mod Sending
pub mod FecPrune
