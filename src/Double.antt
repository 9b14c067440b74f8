-- ===== src/Double.antt =====
-- The C type `double` and the operations on it that the program uses, as an interface: antt has no
-- floats. Definitions take the operations; theorems name the laws of IEEE 754 that they rest on.
mod Base
mod Milli
pub use Base.*
unfoldable pub use Milli.{milli}
pub use Milli.{milli-IsOrdered}
