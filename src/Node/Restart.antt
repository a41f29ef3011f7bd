-- ===== src/Node/Restart.antt =====
-- A server of integration001/src/node.rs that is opened again from its log is the server that wrote the
-- log.
pub mod Typed
pub mod Receipts
pub mod Ready
pub mod Votes
pub mod Apply
pub mod Grows
pub mod First
pub mod Requests
