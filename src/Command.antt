-- ===== src/Command.antt =====
-- The commands: cmd/star and cmd/registar.
pub mod Config
pub mod Flags
pub mod Star
pub mod Registar
