-- ===== src/Domain.antt =====
-- The decision-domain records of src/kil/domain.py. A frozen dataclass is a record, and its
-- `__post_init__` is a check that raises ValueError; the checks on runtime types are the types here.
mod Types
mod Checks
pub mod Validity
pub use Types.*
unfoldable pub use Checks.*
