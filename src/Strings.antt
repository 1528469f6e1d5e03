-- ===== src/Strings.antt =====
-- hlibc/string.c: hexadecimal and Base 64 text, and the memory helpers. A buffer is the list of its
-- bytes; a C string is a buffer with a zero byte in it, and a read outside the buffer is a fault.
pub mod Tables
pub mod Hex
pub mod HexLaws
pub mod Base64
pub mod Base64Laws
pub mod Memory
pub mod Errors
mod Examples
