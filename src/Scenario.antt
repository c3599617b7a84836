-- ===== src/Scenario.antt =====
-- The loader of src/kil/scenario.py, and what it guarantees to a replay.
mod Readers
mod Parts
mod Load
pub mod WellFormed
unfoldable pub use Readers.*
unfoldable pub use Parts.*
unfoldable pub use Load.*
