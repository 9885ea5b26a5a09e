-- ===== src/Rtcm.antt =====
-- src/rtcm.py: the checksum, the stream parser, the bit reader and the decoders of messages.
pub mod Crc
pub mod Stream
pub mod BitReader
pub mod Messages
mod Tests
