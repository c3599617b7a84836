-- ===== src/Authz.antt =====
-- The authorization service of src/kil/ext_authz_http.py.
mod Fixtures
mod Decision
mod Records
mod App
pub mod Config
mod Responses
pub mod Answering
pub mod Headers
pub mod Permits
unfoldable pub use Fixtures.*
unfoldable pub use Decision.*
unfoldable pub use Records.*
unfoldable pub use App.*
