-- ===== src/Bits.antt =====
-- Laws of `&`, `|`, `^` and of shifts on unsigned words, at variables and at every width.
mod Digit
mod Words
mod Not
mod Single
unfoldable pub use Digit.*
unfoldable pub use Words.*
unfoldable pub use Not.*
unfoldable pub use Single.*
