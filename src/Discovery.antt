-- ===== src/Discovery.antt =====
-- internal/discovery: a small STUN-like protocol over UDP, its messages, server and client.
pub mod Wire
pub mod Serve
pub mod Bind
