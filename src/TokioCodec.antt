-- ===== src/TokioCodec.antt =====
-- xvc-protocol/src/tokio_codec.rs: the decoders of the asynchronous server and client.
pub mod Buffer
pub mod MessageDecoder
pub mod XvcInfoDecoder
