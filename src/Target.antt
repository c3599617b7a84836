-- ===== src/Target.antt =====
-- The target process of src/kil/target_http.py: its ledger, and its answers to requests.
mod Store
mod App
pub mod Markers
pub mod Answering
unfoldable pub use Store.*
unfoldable pub use App.*
