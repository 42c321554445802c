-- ===== src/Registar.antt =====
-- internal/registar: keys and tokens, the registar server, its control protocol and its clients.
pub mod Admin
pub mod Auth
pub mod Ca
pub mod Control
pub mod Peer
pub mod Server
pub mod P2p
pub mod Client
