-- ===== src/Engine.antt =====
-- The decision engine of src/kil/engine.py.
mod Defs
pub mod Reasons
pub mod Totality
pub mod Escalation
unfoldable pub use Defs.*
