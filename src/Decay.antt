-- ===== src/Decay.antt =====
-- The arithmetic of src/kil/decay.py, over a decimal context.
mod Defs
pub mod Bounds
unfoldable pub use Defs.*
