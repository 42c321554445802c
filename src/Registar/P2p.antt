-- ===== src/Registar/P2p.antt =====
-- internal/registar/p2p: how two clients connect directly.
pub mod Errors
pub mod Connector
pub mod Connect
