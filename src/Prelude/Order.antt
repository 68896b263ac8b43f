-- ===== src/Prelude/Order.antt =====
-- Total orders as an interface, `max(xs, key=...)` and `sorted(xs)` over one, and the orders of
-- text and of Python's pairs.
pub mod Text
pub mod Max
pub mod Sorted
pub use Defs.*
mod Defs
