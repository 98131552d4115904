-- ===== src/Common.antt =====
-- What backend/src/common holds: the enumerations and the rounding of decimals.
pub mod Decimal
pub mod Errors
pub mod Enums
