-- ===== src/Registar/Server/Peers/Laws.antt =====
-- When the registar tells a peer that it is connected (`connectPeer` of internal/registar/server.go).
use star.Prelude.{
  ℕ, ◌≡◌, refl, inl, inr, Bool, true, false, ◌&&◌, ◌||◌, not, none, some, List, [], ◌∷◌, arith,
  Option-cases, if◌then◌else◌, ◌==◌,
}
use star.Prelude.Dict.{get}
use star.Registar.Control.{
  Exchange, unsent, unanswered, answered, connect_to, connect_via_relay, status_ok,
  status_code_connect_failed,
}
use star.Registar.Peer.{is_nil, is_connect_failed}
use star.Registar.Peer.Laws.{init_p2p_lem, init_relay_lem}
use star.Registar.Server.{
  AddrPair, Server, Effect, reset, peer_connected, err_code_no_error, err_code_host_not_found,
  err_code_p2p_failed, add_uint64,
}
use star.Registar.Server.Peers.{Exchanges, connect_agents, connect_peer}

-- The client answered with this status.
pub is_status : ℕ → Exchange → Bool
is_status status unsent = false
is_status status unanswered = false
is_status status (answered code) = code == status

-- Both clients made the direct connection.
pub is_direct : Exchanges → Bool
is_direct e = is_status status_ok e.host_connect_to && is_status status_ok e.peer_connect_to

-- The direct connection was not made, a client found no way to the other, and both accepted the relay.
pub is_relayed : Exchanges → Bool
is_relayed e =
    not (is_direct e)
    && (is_status status_code_connect_failed e.host_connect_to
        || is_status status_code_connect_failed e.peer_connect_to)
    && is_status status_ok e.host_relay
    && is_status status_ok e.peer_relay

connect_to-is_nil : (e : Exchange) → is_nil (connect_to e) ≡ is_status status_ok e
unfolding connect_to is_nil is_status
connect_to-is_nil unsent = refl
connect_to-is_nil unanswered = refl
connect_to-is_nil (answered code) = ground arith

connect_to-is_connect_failed :
    (e : Exchange) → is_connect_failed (connect_to e) ≡ is_status status_code_connect_failed e
unfolding connect_to is_connect_failed is_status
connect_to-is_connect_failed unsent = refl
connect_to-is_connect_failed unanswered = refl
connect_to-is_connect_failed (answered code) = ground arith

connect_via_relay-is_nil : (e : Exchange) → is_nil (connect_via_relay e) ≡ is_status status_ok e
unfolding connect_via_relay is_nil is_status
connect_via_relay-is_nil unsent = refl
connect_via_relay-is_nil unanswered = refl
connect_via_relay-is_nil (answered code) = ground arith

-- The code with which the peer's stream is reset.
pub outcome : Bool → Exchanges → ℕ
outcome false e = err_code_host_not_found
outcome true e = if is_direct e || is_relayed e then err_code_no_error else err_code_p2p_failed

pub has_host : {Key CA Addr : Type 0} → Discrete Key → Server Key CA Addr → Key → Bool
has_host dec s key = elim (get dec key s.hosts) [ none ↦ false | some host ↦ true ]

-- What is done for the peer beside the reset.
pub announced :
    {Key Addr : Type 0}
    → Bool
    → Exchanges
    → Key
    → AddrPair Addr
    → List (Effect Key Addr)
    → List (Effect Key Addr)
announced false e key addrs rest = rest
announced true e key addrs rest =
    if is_direct e || is_relayed e then peer_connected key addrs ∷ rest else rest

module _ {Key CA Addr : Type 0} where
  connect_agents_lem :
      (s : Server Key CA Addr) (str : ℕ) (key : Key) (addrs : AddrPair Addr) (e : Exchanges)
      → connect_agents s str key addrs e ≡ (
        record s {
          p2p_conns = if is_direct e then add_uint64 s.p2p_conns 1 else s.p2p_conns;
          relay_conns = if is_relayed e then add_uint64 s.relay_conns 1 else s.relay_conns;
        },
        announced true e key addrs (reset str (outcome true e) ∷ []),
      )
  unfolding connect_agents is_direct is_relayed outcome announced
  connect_agents_lem s str key addrs e = ground (
    arith,
    connect_to-is_nil e.host_connect_to,
    connect_to-is_nil e.peer_connect_to,
    connect_to-is_connect_failed e.host_connect_to,
    connect_to-is_connect_failed e.peer_connect_to,
    connect_via_relay-is_nil e.host_relay,
    connect_via_relay-is_nil e.peer_relay,
    init_p2p_lem (connect_to e.host_connect_to) (connect_to e.peer_connect_to),
    init_relay_lem (connect_via_relay e.host_relay) (connect_via_relay e.peer_relay),
  )

module _ {Key CA Addr : Type 0} (dec : Discrete Key) where
  -- `connectPeer` counts a peer-to-peer connection if its game has a host and both clients made the
  -- direct connection, a relayed one if its game has a host, the direct connection was not made, at
  -- least one client reported that it found no way, and both accepted the relay. It announces the peer
  -- in these cases and no other, changes nothing else, and resets the peer's stream with the code of
  -- the outcome.
  pub connect_peer_lem :
      (s : Server Key CA Addr) (str : ℕ) (key : Key) (addrs : AddrPair Addr) (e : Exchanges)
      → connect_peer dec s str key addrs e ≡ (
        record s {
          p2p_conns =
              if has_host dec s key && is_direct e then add_uint64 s.p2p_conns 1 else s.p2p_conns;
          relay_conns =
              if has_host dec s key && is_relayed e
              then add_uint64 s.relay_conns 1
              else s.relay_conns;
        },
        announced
            (has_host dec s key)
            e
            key
            addrs
            (reset str (outcome (has_host dec s key) e) ∷ []),
      )
  unfolding connect_peer has_host outcome announced
  connect_peer_lem s str key addrs e = elim (Option-cases (get dec key s.hosts)) [
    | inl free ↦ ground arith
    | inr (host, found) ↦ ground (arith, connect_agents_lem s str key addrs e)
  ]
