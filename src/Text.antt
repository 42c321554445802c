-- ===== src/Text.antt =====
-- What the program uses of strconv, net and path/filepath on texts, which are lists of bytes.
pub mod Decimal
pub mod Atoi
pub mod HostPort
