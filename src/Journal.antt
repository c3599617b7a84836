-- ===== src/Journal.antt =====
-- The lifecycle journal of src/kil/v3b2_journal.py: its events and the history check.
mod Events
mod Fields
mod Details
mod State
mod Steps
mod Loop
pub mod Prerequisites
pub mod Teardown
pub mod Requests
unfoldable pub use Events.*
unfoldable pub use Fields.*
unfoldable pub use Details.*
unfoldable pub use State.*
unfoldable pub use Steps.*
unfoldable pub use Loop.*
