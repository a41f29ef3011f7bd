-- ===== src/Model.antt =====
-- The monetary and quorum model of integration001/src/model.rs.
pub mod Types
pub mod Manifest
pub mod Transaction
pub mod Vote
pub mod Certificate
pub mod Proposal
pub mod Ledger
pub mod Root
pub mod Finality
pub mod Examples
