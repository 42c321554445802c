-- ===== src/Registar/Server/Peers.antt =====
-- `connectPeer` of internal/registar/server.go. The four exchanges on the control streams are inputs,
-- those of the relay used only if the code gets there; the lock of the host makes one setup follow
-- the other, so that a setup is one step.
pub mod Laws
use star.Prelude.{ℕ, Bool, true, false, Option, none, some, List, [], ◌∷◌, if◌then◌else◌}
use star.Prelude.Dict.{get}
use star.Registar.Control.{Error, Exchange, connect_to, connect_via_relay}
use star.Registar.Peer.{is_nil, is_connect_failed, init_p2p, init_relay}
use star.Registar.Server.{
  AddrPair, Agent, Server, Effect, reset, peer_connected, err_code_no_error,
  err_code_host_not_found, err_code_p2p_failed, add_uint64,
}

pub record Exchanges : Type 0 where
  pub host_connect_to : Exchange
  pub peer_connect_to : Exchange
  pub host_relay : Exchange
  pub peer_relay : Exchange

module _ {Key CA Addr : Type 0} where
  -- What `connectPeer` does once it has the host's lock; the last effect is the deferred reset.
  connect_agents :
      Server Key CA Addr
      → ℕ
      → Key
      → AddrPair Addr
      → Exchanges
      → Server Key CA Addr × List (Effect Key Addr)
  connect_agents s str key addrs e =
      let err = init_p2p (connect_to e.host_connect_to) (connect_to e.peer_connect_to) in
      let relay_err =
        init_relay (connect_via_relay e.host_relay) (connect_via_relay e.peer_relay) in
      if is_nil err
      then (
        record s { p2p_conns = add_uint64 s.p2p_conns 1 },
        peer_connected key addrs ∷ reset str err_code_no_error ∷ [],
      )
      else if is_connect_failed err
      then (if is_nil relay_err
          then (
            record s { relay_conns = add_uint64 s.relay_conns 1 },
            peer_connected key addrs ∷ reset str err_code_no_error ∷ [],
          )
          else (s, reset str err_code_p2p_failed ∷ []))
      else (s, reset str err_code_p2p_failed ∷ [])

module _ {Key CA Addr : Type 0} (dec : Discrete Key) where
  pub connect_peer :
      Server Key CA Addr
      → ℕ
      → Key
      → AddrPair Addr
      → Exchanges
      → Server Key CA Addr × List (Effect Key Addr)
  unfolding connect_agents
  connect_peer s str key addrs e = elim (get dec key s.hosts) [
    | none ↦ (s, reset str err_code_host_not_found ∷ [])
    | some host ↦ connect_agents s str key addrs e
  ]
