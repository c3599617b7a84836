-- ===== src/Replay.antt =====
-- The paired historical replay of src/kil/replay.py.
mod Defs
pub mod Order
pub mod Conservative
pub mod Totality
unfoldable pub use Defs.*
