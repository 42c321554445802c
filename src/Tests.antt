-- ===== src/Tests.antt =====
-- The theorems at concrete inputs, and runs of the definitions.
pub mod Auth
pub mod Command
pub mod Platform
pub mod Discovery
pub mod Relay
pub mod Registar
pub mod Tls
pub mod P2p
pub mod Web
pub mod Admin
pub mod Forms
pub mod Forwarder
pub mod Http
