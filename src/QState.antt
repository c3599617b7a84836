-- ===== src/QState.antt =====
-- The signed composite state of src/kil/q_state.py.
mod Wire
mod Claims
mod Payload
mod Token
pub mod Carried
pub mod Distinct
pub mod Verification
unfoldable pub use Wire.*
unfoldable pub use Claims.*
unfoldable pub use Payload.*
unfoldable pub use Token.*
