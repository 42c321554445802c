-- ===== src/Platform.antt =====
-- internal/platform: the ring-buffer queue and the map with expiring entries.
pub mod Queue
pub mod Ttl
pub mod Udp
