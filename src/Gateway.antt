-- ===== src/Gateway.antt =====
-- The forward-or-withhold gate of src/kil/reference_gateway.py.
mod Defs
pub mod Markers
unfoldable pub use Defs.*
