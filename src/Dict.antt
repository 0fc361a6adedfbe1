-- ===== src/Dict.antt =====
-- Python's `dict` with text keys, in the order of insertion.
mod Defs
mod Laws
unfoldable pub use Defs.*
pub use Laws.*
