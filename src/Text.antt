-- ===== src/Text.antt =====
-- Numbers and lists of numbers as text, as strconv and encoding/json write and read them.
pub mod Decimal
pub mod Json
pub mod Atoi
