-- ===== src/Store/Safety.antt =====
-- What a validator's store promises to the protocol, whatever the order of calls and however their
-- writes go (integration001/src/store.rs).
pub mod Votes
pub mod Locks
pub mod Terminal
