-- ===== src/Text.antt =====
-- The functions of Go's packages `strings` and `unicode` that the service calls. A text is the
-- sequence of its code points (the service's texts are UTF-8); an index or a length that the
-- source takes in bytes is counted by `byte_length`.
mod Defs
pub mod Order
pub mod Trim
pub mod Split
pub mod Case
pub mod Ascii
unfoldable pub use Defs.*
