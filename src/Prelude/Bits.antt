-- ===== src/Prelude/Bits.antt =====
-- The laws of `&`, `|` and `~` on words: the digit equations, single bits, and fields.
mod Digits
mod Single
mod Masks
mod Fields
pub use Digits.*
unfoldable pub use Single.{bit}
pub use Single.{bit-le-one, bit-bit_and, bit-bit_or, bit-zero, bit-complement, bit-above, bit_ext}
pub use Masks.*
pub use Fields.*
