-- ===== src/Store.antt =====
-- integration001/src/store.rs: the durable, append-only state of one validator.
pub mod Types
pub mod Codec
pub mod Record
pub mod Replay
pub mod Method
pub mod Append
pub mod Activate
pub mod Votes
pub mod Apply
pub mod Retire
pub mod Open
pub mod Queries
pub mod Calls
pub mod Recovery
pub mod Safety
mod Examples
