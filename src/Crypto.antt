-- ===== src/Crypto.antt =====
-- hlibc/crypto: one module for each cipher or hash.
pub mod Des
pub mod Stream
pub mod Md4
pub mod Md5
pub mod Murmur
pub mod Siphash
pub mod Md2
pub mod Sha1
pub mod Digests
