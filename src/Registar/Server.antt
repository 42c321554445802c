-- ===== src/Registar/Server.antt =====
-- The state of `Server` of internal/registar/server.go and what its handlers may do beside changing
-- it. Connections and streams are numbers, their identities; a session id is its text. The children
-- have the operations: Hosts, Peers, Relays, Register for the handler that uses them, and Conn for a
-- connection.
pub mod Conn
pub mod Hosts
pub mod Peers
pub mod Relays
pub mod Register
use star.Prelude.{ℕ, List, [], ◌+◌, ◌%◌, ◌^◌}

pub record AddrPair (Addr : Type 0) : Type 0 where
  pub public_addr : Addr
  pub private_addr : Addr

pub record Agent (Addr : Type 0) : Type 0 where
  pub str : ℕ
  pub addrs : AddrPair Addr

-- `watchers` are the functions that `context.AfterFunc` keeps for the host streams, and `relays` the
-- running `relay` goroutines, which `relayCount` counts.
pub record Server (Key CA Addr : Type 0) : Type 0 where
  pub registered_conns : List {0} (ℕ × Unit)
  pub sessions : List (Key × CA)
  pub hosts : List (Key × Agent Addr)
  pub watchers : List (ℕ × (Key × AddrPair Addr))
  pub relay_waiting : List (List ℕ × ℕ)
  pub relays : List (ℕ × ℕ)
  pub relay_bytes : ℕ
  pub p2p_conns : ℕ
  pub relay_conns : ℕ

-- `NewServer`
unfoldable pub new_server : (Key CA Addr : Type 0) → Server Key CA Addr
new_server Key CA Addr = record {
  registered_conns = [];
  sessions = [];
  hosts = [];
  watchers = [];
  relay_waiting = [];
  relays = [];
  relay_bytes = 0;
  p2p_conns = 0;
  relay_conns = 0;
}

-- `reset` is `CancelRead` and `CancelWrite` of a stream with a code; the others are the callbacks.
pub data Effect (Key Addr : Type 0) : Type 0 where
  reset : ℕ → ℕ → Effect Key Addr
  host_connected host_disconnected peer_connected : Key → AddrPair Addr → Effect Key Addr

abbrev pub err_code_no_error : ℕ
err_code_no_error = 0x1000

abbrev pub err_code_host_already_registered : ℕ
err_code_host_already_registered = 0x1001

abbrev pub err_code_host_not_found : ℕ
err_code_host_not_found = 0x1002

abbrev pub err_code_p2p_failed : ℕ
err_code_p2p_failed = 0x1003

-- `Add` of an `atomic.Uint64`
pub add_uint64 : ℕ → ℕ → ℕ
add_uint64 n k = (n + k) % 2 ^ 64
