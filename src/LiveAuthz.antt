-- ===== src/LiveAuthz.antt =====
-- The authorization adapter of src/kil/live_authz.py.
mod Identity
mod Defs
pub mod Digests
pub mod Tracks
pub mod Headers
unfoldable pub use Identity.*
unfoldable pub use Defs.*
