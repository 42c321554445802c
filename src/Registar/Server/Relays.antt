-- ===== src/Registar/Server/Relays.antt =====
-- Connections and relays of internal/registar/server.go: `registerConn`, `Relay`, `relay`, `Stats`.
pub mod Laws
use mathlib.Core.Logic.{ite}
use native.Mathlib.Decide.{ℕ_discrete}
use star.Prelude.{ℕ, Bool, true, false, Option, none, some, List, [], ◌∷◌, if◌then◌else◌, length}
use star.Prelude.Dict.{get, put, delete}
use star.Registar.Server.{Server, Effect, add_uint64}

pub session_discrete : Discrete (List ℕ)
session_discrete = hlevel ℕ_discrete

-- How a request to `Relay` ends for now: an HTTP error; a panic, where the stream cannot be taken
-- over and the nil stream is reset; a relay of two streams that starts; or a stream that waits.
pub data Arrival : Type 0 where
  http_error : ℕ → Arrival
  panicked : Arrival
  relaying : ℕ → ℕ → Arrival
  waits : Arrival

abbrev pub status_unauthorized : ℕ
status_unauthorized = 401

abbrev pub status_internal_server_error : ℕ
status_internal_server_error = 500

module _ {Key CA Addr : Type 0} where
  unfoldable pub register_conn : Server Key CA Addr → ℕ → Server Key CA Addr
  register_conn s conn = record s { registered_conns = put ℕ_discrete conn tt s.registered_conns }

  -- The function that `registerConn` leaves to run when the connection ends.
  pub conn_closed : Server Key CA Addr → ℕ → Server Key CA Addr
  conn_closed s conn = record s { registered_conns = delete ℕ_discrete conn s.registered_conns }

  -- The part of `Relay` under `relayMu`.
  unfoldable pub pair_up : Server Key CA Addr → ℕ → List ℕ → Server Key CA Addr × Arrival
  pair_up s str session = elim (get session_discrete session s.relay_waiting) [
    | some waiting ↦ (
      record s {
        relay_waiting = delete session_discrete session s.relay_waiting;
        relays = (waiting, str) ∷ s.relays;
      },
      relaying waiting str,
    )
    | none ↦ (record s { relay_waiting = put session_discrete session str s.relay_waiting }, waits)
  ]

  -- `Relay`; `conn` is the connection in the request's context, and `taken` the stream, `none` if
  -- `HTTPStream` fails.
  unfoldable pub relay :
      Server Key CA Addr → Option ℕ → List ℕ → Option ℕ → Server Key CA Addr × Arrival
  unfolding pair_up
  relay s none session taken = (s, http_error status_internal_server_error)
  relay s (some conn) session taken = elim (get ℕ_discrete conn s.registered_conns) [
    | none ↦ (s, http_error status_unauthorized)
    | some registered ↦ elim taken [ none ↦ (s, panicked) | some str ↦ pair_up s str session ]
  ]

  -- The end of the wait of `Relay` by the end of the stream; the entry goes by its session id.
  pub leave : Server Key CA Addr → List ℕ → Server Key CA Addr
  leave s session = record s { relay_waiting = delete session_discrete session s.relay_waiting }

  -- A turn of one of the loops of `relay`: the datagram that is sent on, if both calls succeed.
  unfoldable pub forward :
      Server Key CA Addr → Option (List ℕ) → Bool → Server Key CA Addr × Option (List ℕ)
  forward s none sent = (s, none)
  forward s (some dg) false = (s, none)
  forward s (some dg) true =
      (record s { relay_bytes = add_uint64 s.relay_bytes (length dg) }, some dg)

pub record Stats : Type 0 where
  pub registered_conns : ℕ
  pub waiting_relays : ℕ
  pub bytes_relayed : ℕ
  pub p2p_conns : ℕ
  pub relay_conns : ℕ

unfoldable pub stats : {Key CA Addr : Type 0} → Server Key CA Addr → Stats
stats s = record {
  registered_conns = length s.registered_conns;
  waiting_relays = length s.relay_waiting;
  bytes_relayed = s.relay_bytes;
  p2p_conns = s.p2p_conns;
  relay_conns = s.relay_conns;
}
