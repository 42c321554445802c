-- ===== src/Relay.antt =====
-- internal/relay: the UDP relay, its routes, its packets and its counters. Addresses are any type
-- with decidable equality (`netip.AddrPort` is compared and nothing else).
pub mod Routes
pub mod Packets
