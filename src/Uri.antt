-- ===== src/Uri.antt =====
-- hlibc/uri.c: URIs, taken apart and normalised.
mod Tables
pub mod Parts
pub mod Segments
mod Text
mod Moves
pub mod Laws
pub mod Recompose
pub mod Normalize
pub mod Stable
pub mod Accepts
pub mod Whole
mod Tabled
pub mod Grammar
pub mod Accepted
pub mod HostLaws
mod Examples
