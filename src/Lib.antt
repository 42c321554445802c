-- ===== src/Lib.antt =====
-- A model of star, which lets players host and join games behind NATs: a registar brings the host
-- and the peers of a game together over QUIC, a discovery server tells a client its public address,
-- and a relay carries the datagrams of those who cannot reach each other.
--
-- How the parts interact: a client discovers its address (internal/discovery), and sends the text
-- of its game's token to the registar, whose middleware (internal/platform/httpplatform) checks it
-- with internal/registar/auth. `Register` (internal/registar/server.go) has the session authority
-- (internal/registar/ca.go) sign a certificate, and keeps the stream of a host or connects a peer:
-- it runs the control protocol (internal/registar/control) on both streams (internal/registar/peer.go),
-- first for a direct connection and then for a relay through `Relay`.
--
-- The files, each named for the code that it models:
--   Prelude, Prelude/Tests, Prelude/Lists, Prelude/Dict: Boolean tests on ℕ, lists over the native ℕ, and
--     Go maps as association lists.
--   Platform/Queue: `Queue` of internal/platform/queue.go; buf, head and len are its fields, and `none`
--     is a panic. Contents has its list and invariant, Pop and Push the operations, Runs their sequences.
--   Registar/Auth/Base32, Base64: what key.go and token.go use of encoding/base32 and encoding/base64.
--   Registar/Auth/Key: internal/registar/auth/key.go; Registar/Auth/Token: internal/registar/auth/token.go.
--   Platform/Ttl: `TTLMap` of internal/platform/ttlmap.go; Entries, Evict and Shape have the list's order
--     and keys, Laws the map as a function of keys, Retention the sequences of calls.
--   Text: what the program uses of strconv and net on texts.
--   Http/Authenticate, RateLimit, Hosts, Wrap, Static: the middlewares of
--     internal/platform/httpplatform/middleware.go, and `targetHost` of redirect.go.
--   Registar/Ca: `Authority` of internal/registar/ca.go; Certs has who signs a certificate, and for how long.
--   Registar/Control: `ConnectTo`, `ConnectViaRelay` and `Agent` of internal/registar/control.
--   Registar/Peer: `initP2P`, `initRelay` and `joinErrors` of internal/registar/peer.go.
--   Registar/Server: the state of `Server` of internal/registar/server.go; Server/Hosts has
--     `registerHost`, the end of a host's stream and `Close`, Server/Peers `connectPeer`, Server/Relays
--     `registerConn`, `Relay`, `relay` and `Stats`, Server/Register `Register`, whom it admits, and the step relation,
--     Server/Conn `ServeQUICConn`.
--   Discovery/Wire, Serve, Bind: the messages, `Server.Serve` and `Bind` of internal/discovery/discovery.go.
--   Relay/Routes: the route table of `UDPRelay` of internal/relay/relay.go; Relay/Packets: its `Serve`,
--     whose goroutines are one state that takes a step at a time.
--   Platform/Udp: `Listener` and `Conn` of internal/platform/udp, with a store of connections; Sound has
--     the invariant, Runs the sequences of calls, Delivery the way of a packet, Lock what calls do while
--     the read loop dispatches.
--   Registar/P2p: the errors and `Connector` of internal/registar/p2p/connector.go; Connect has its
--     `Connect`, whose loops are events of one state.
--   Registar/Client: internal/registar/client.go; Tls has its `tlsConfig`, and the handshake of crypto/tls.
--   Errcode: internal/errcode/errcode.go.
--   Web/Sse: `ringBuffer` and `SSEHandler` of internal/webserver/sse.go.
--   Web/Forms: the forms of internal/webserver/models.go.
--   Registar/Admin: internal/registar/admin/admin.go; HostList sets its host list against the server's
--     table, Bandwidth its ring against the list of ticks.
--   Forwarder/Link, Host, Peer: internal/forwarder/link.go, host.go and peer.go.
--   Web/Session: the handlers of internal/webserver/server.go and the session that they keep.
--   Command/Flags: `FlagSet.Parse` of Go's flag package; Command/Config: cmd/star/config.go;
--     Command/Star: `main` of cmd/star/main.go;
--     Command/Registar: `parseConfig` of cmd/registar/main.go.
--   Tests: the theorems at concrete values.
--
-- Bounds and fuel: bytes and characters are numbers; a key is five of them, a token a list. The
-- counters of the registar wrap at 2^64. The loops of `Serve` and `Bind` run on the list of what the
-- socket does, so that no fuel is chosen: the end of the list is a loop that still waits. The loop
-- of `grow` counts down the items that it copies. A link runs on the list of what its calls return.
-- Times are nanoseconds in ℕ; sums of them that would overflow an int64 are not modelled. Connections
-- and streams of the registar are numbers that stand for their identity.
--
-- Parameters: HMAC-SHA256 is `Mac`, whose sums have 32 bytes; x509 is `sign`, the authorities that
-- the calls are given, and `X509` with the hypothesis `IsX509`; net/url and encoding/pem are parts of `Parsers`, the limiters of
-- golang.org/x/time/rate are `Rate`, whose refill is the hypothesis `IsRefilled`; the
-- randomness of ids and keys enters as the values made; the network as the events and exchanges that
-- happen.
--
-- Not modelled: QUIC, HTTP framing and TLS but for the check of certificates, the loop of the server
-- that accepts connections, JSON, logging, templates and what the commands start, which are
-- calls of libraries; texts of keys that are not ASCII; the deadlines of sockets, but for
-- the event that one passes; the data races that the locks exclude.
pub mod Prelude
pub mod Platform
pub mod Text
pub mod Registar
pub mod Http
pub mod Relay
pub mod Discovery
pub mod Web
pub mod Forwarder
pub mod Errcode
pub mod Command
pub mod Tests
