-- ===== src/Money.antt =====
-- The monetary domain (src/common/money): decimal rounding, currencies, the value object `Money`,
-- and the division of an amount into parts that add up to it.
pub mod Decimal
pub mod Numeral
pub mod Percent
pub mod Currency
pub mod Value
pub mod Allocate
