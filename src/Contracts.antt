-- ===== src/Contracts.antt =====
-- The data contracts of services/api/app/contracts.py. Each pydantic model is a record; what its
-- field constraints and validators accept is a `validate_...` function beside it.
mod Base
pub mod Time
pub mod Market
pub mod Event
pub mod Signal
unfoldable pub use Base.{all_symbol_chars, length_between, optional_length, symbol_pattern}
pub use Base.*
