-- ===== src/Bit.antt =====
-- include/hlibc/bit.h: bytes in memory, bit sets and rotations.
pub mod Bytes
pub mod Sets
pub mod SetsLaws
pub mod Rotate
mod Examples
