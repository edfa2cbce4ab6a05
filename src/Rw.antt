-- ===== src/Rw.antt =====
-- xvc-protocol/src/rw.rs: writing messages, and the blocking decoder in the modules below.
pub mod Write
pub mod Decoder
pub mod FromReader
