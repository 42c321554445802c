-- ===== src/Registar/Auth.antt =====
-- internal/registar/auth: the game keys that players share, and the tokens that sign them.
pub mod Base32
pub mod Base64
pub mod Key
pub mod Token
