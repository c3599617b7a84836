-- ===== src/Canonical.antt =====
-- The canonical JSON of src/kil/canonical.py.
mod Values
mod Normal
mod Text
pub mod Order
pub mod Stable
unfoldable pub use Values.*
unfoldable pub use Normal.*
unfoldable pub use Text.*
