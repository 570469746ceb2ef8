-- ===== src/Js.antt =====
-- The parts of the JavaScript language that the modelled code uses.
mod Text
mod Numbers
mod Values
mod Decimal
mod Split
unfoldable pub use Text.*
unfoldable pub use Numbers.*
unfoldable pub use Decimal.*
unfoldable pub use Split.*
unfoldable pub use Values.*
