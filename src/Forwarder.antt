-- ===== src/Forwarder.antt =====
-- internal/forwarder: the link between the game's UDP socket and the connection to the other side.
pub mod Link
pub mod Host
pub mod Peer
