-- ===== src/Decimal.antt =====
-- What the back end uses of Python's `decimal.Decimal`, as an interface: the code is modelled over
-- any such arithmetic, rounding included. Comparisons are those of finite numbers.
-- `IsExact` is the case in which no sum, difference or whole multiple is rounded, as for results
-- within the 28 digits of the default context; `IsOrdered` is what every arithmetic has.
mod Interface
mod Laws
mod Fixed
pub use Interface.*
pub use Laws.*
pub use Fixed.*
