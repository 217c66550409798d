-- ===== src/Effect.antt =====
-- Go functions that read and change what is outside the program and return `(value, error)`.
-- Whatever was changed before an error stays changed, so the state comes back beside it.
mod Defs
mod Inversion
pub mod Preserves
pub mod Safe
pub mod Total
pub mod Always
unfoldable pub use Defs.*
pub use Inversion.*
