-- ===== src/Base.antt =====
-- src/base/: byte access and hashing, with the laws of the bit operations they use.
pub mod Bits
pub mod Hash
pub mod ByteIo
