-- ===== src/Authz/Config.antt =====
-- The configuration of the authorization service, `load_service_config` of src/kil/ext_authz_http.py.
mod Readers
mod Keys
mod Load
mod Entries
pub mod Safety
unfoldable pub use Readers.*
unfoldable pub use Keys.*
unfoldable pub use Load.*
