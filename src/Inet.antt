-- ===== src/Inet.antt =====
-- hlibc/inet.c: addresses as text.
pub mod Ipv4
pub mod Ipv4Laws
pub mod Ipv6
mod Examples
pub mod Total
