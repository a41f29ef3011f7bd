-- ===== src/Wire.antt =====
-- integration001/src/wire.rs: messages, states and frames as bytes.
pub mod Codec
pub mod Reads
pub mod Messages
pub mod Requests
pub mod States
pub mod Frames
