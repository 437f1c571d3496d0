-- ===== src/Protocol.antt =====
-- The ZMTP framing layer, src/protocol: frame headers, the encoder and decoder state machines.
pub mod Header
pub mod Decoder
pub mod Chunks
pub mod Stream
pub mod Encoder
pub mod Owed
pub mod Batches
pub mod Calls
pub mod Sending
pub mod Frame
pub mod Roundtrip
