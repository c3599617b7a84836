-- ===== src/Yaml.antt =====
-- The closed YAML of src/kil/v3b2_closed_yaml.py.
mod Lines
mod Patterns
mod Scalars
mod Decoder
pub mod Counting
pub mod Leaves
pub mod Soundness
pub mod Rounds
pub mod Fuel
pub mod Termination
pub mod Quotes
unfoldable pub use Lines.*
unfoldable pub use Patterns.*
unfoldable pub use Scalars.*
unfoldable pub use Decoder.*
