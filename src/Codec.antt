-- ===== src/Codec.antt =====
-- xvc-protocol/src/codec.rs: parsers over a byte slice. A parser takes the slice `*buf` and returns
-- its result with the slice that it leaves in `*buf`.
pub mod Parser
pub mod SliceReader
pub mod Command
pub mod SetTck
pub mod Shift
pub mod VersionText
pub mod Info
pub mod Safe
pub mod Inverse
