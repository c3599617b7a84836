-- ===== src/Decimal.antt =====
-- Python's `decimal.Decimal`, as far as src/kil/decay.py, src/kil/domain.py and src/kil/engine.py
-- use it. Comparison is exact, so it is defined here. Rounded arithmetic goes through a context.
mod Order
mod Arithmetic
unfoldable pub use Order.*
pub use Arithmetic.*
