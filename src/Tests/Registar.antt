-- ===== src/Tests/Registar.antt =====
-- The registar at concrete values: keys, authorities and addresses are numbers.
use mathlib.Core.Logic.{ite}
use native.Mathlib.Decide.{ℕ_discrete}
use star.Prelude.{
  ℕ, ◌+◌, ◌≡◌, refl, true, ◌&&◌, Option, some, none, List, [], ◌∷◌, arith, if◌then◌else◌,
}
use star.Prelude.Dict.{get, put, get-put}
use star.Registar.Control.{answered}
use star.Registar.Server.{AddrPair, Agent, Server, reset, new_server, add_uint64}
use star.Registar.Server.Hosts.{register_host, stream_closed, close}
use star.Registar.Server.Hosts.Laws.{IsWatched, IsOwned, close_lem}
use star.Registar.Server.Peers.{connect_peer}
use star.Registar.Server.Peers.Laws.{
  is_direct, is_relayed, outcome, has_host, announced, connect_peer_lem,
}
use star.Registar.Server.Relays.{relay, pair_up, forward, relaying, waits, register_conn}
use star.Registar.Server.Relays.Laws.{
  Event, conn_registers, datagram, run, step, waiting_for, IsRegistered, relay-relay,
}
use star.Registar.P2p.Errors.{failed, application_error}
use star.Registar.Server.Conn
use star.Registar.Server.Conn.Laws.{served-run, has_none}
use star.Registar.Server.Register.{Call, Reachable, start, next, hosts_game, register}
use star.Registar.Server.Register.Laws.{Reachable-hosts, stream_closed_host}
use star.Registar.Server.Register.Admits.{
  Becomes, new_host, arrived, is_issued, is_given, register_lem,
}
use star.Registar.Server.Register.Handover.{handover, handover_lem}

-- An authority signs every request with its own number.
abbrev sample_sign : ℕ → ℕ → Option ℕ
sample_sign ca csr = some (ca + csr)

abbrev addrs : AddrPair ℕ
addrs = record { public_addr = 1; private_addr = 2 }

abbrev started_server : Server ℕ ℕ ℕ
started_server = new_server ℕ ℕ ℕ

abbrev state : Server ℕ ℕ ℕ
state = (register_host ℕ_discrete started_server 4 7 addrs).0

started-Reachable : Reachable ℕ_discrete sample_sign started_server
started-Reachable = start

state-Reachable : Reachable ℕ_discrete sample_sign state
unfolding new_server get
state-Reachable =
    next started_server state started-Reachable (hosts_game started_server 4 7 addrs refl)

abbrev host : Agent ℕ
host = record { str = 4; addrs = addrs }

state_host : get ℕ_discrete 7 state.hosts ≡ some host
unfolding register_host new_server get
state_host = rw (get-put ℕ_discrete 7 7 host []) (ground arith)

Reachable-hosts_example : IsWatched ℕ_discrete state × IsOwned ℕ_discrete state
Reachable-hosts_example = Reachable-hosts ℕ_discrete sample_sign state state-Reachable

stream_closed_host_example :
    (get ℕ_discrete 7 (stream_closed ℕ_discrete state 4).0.hosts
      ≡ ite (ℕ_discrete 4 host.str) none (some host))
    × (get ℕ_discrete 7 (stream_closed ℕ_discrete state 4).0.sessions
        ≡ ite (ℕ_discrete 4 host.str) none (get ℕ_discrete 7 state.sessions))
stream_closed_host_example =
    stream_closed_host ℕ_discrete sample_sign state 7 host 4 state-Reachable state_host

abbrev own_call : Call ℕ ℕ ℕ
own_call = record {
  body = some (record { csr = 5; private_addr = 2 });
  fresh = some 90;
  encoded = true;
  conn = some (11, 1);
  taken = some 4;
  exchanges = record {
    host_connect_to = answered 412;
    peer_connect_to = answered 412;
    host_relay = answered 200;
    peer_relay = answered 200;
  };
}

register_lem_example :
    Becomes ℕ_discrete started_server 7
      (new_host true own_call.body
        (is_issued ℕ_discrete sample_sign started_server 7 own_call.body own_call.fresh)
        true
        own_call.conn
        own_call.taken
        (is_given (get ℕ_discrete 7 started_server.hosts)))
      (arrived own_call.body
        (is_issued ℕ_discrete sample_sign started_server 7 own_call.body own_call.fresh)
        true
        own_call.conn)
      (register ℕ_discrete sample_sign started_server 7 true own_call).0
register_lem_example = register_lem ℕ_discrete sample_sign started_server 7 true own_call

handover_lem_example :
    (get ℕ_discrete 7 (handover ℕ_discrete sample_sign state 7 5 (some 90) host.str 6 addrs).hosts
      ≡ some (record { str = 6; addrs = addrs }))
    × (get ℕ_discrete 7
          (handover ℕ_discrete sample_sign state 7 5 (some 90) host.str 6 addrs).sessions
        ≡ none)
handover_lem_example =
    handover_lem ℕ_discrete sample_sign state 7 host 5 (some 90) 6 addrs state-Reachable state_host

close_lem_example :
    (get ℕ_discrete 7 (close ℕ_discrete state).hosts ≡ none)
    × (get ℕ_discrete 7 (close ℕ_discrete state).sessions ≡ elim (get ℕ_discrete 7 state.hosts) [
      | none ↦ get ℕ_discrete 7 state.sessions
      | some held ↦ none
    ])
close_lem_example = close_lem ℕ_discrete 7 state

connect_peer_lem_example : connect_peer ℕ_discrete state 9 7 addrs own_call.exchanges ≡ (
  record state {
    p2p_conns =
        if has_host ℕ_discrete state 7 && is_direct own_call.exchanges
        then add_uint64 state.p2p_conns 1
        else state.p2p_conns;
    relay_conns =
        if has_host ℕ_discrete state 7 && is_relayed own_call.exchanges
        then add_uint64 state.relay_conns 1
        else state.relay_conns;
  },
  announced
      (has_host ℕ_discrete state 7)
      own_call.exchanges
      7
      addrs
      (reset 9 (outcome (has_host ℕ_discrete state 7) own_call.exchanges) ∷ []),
)
connect_peer_lem_example = connect_peer_lem ℕ_discrete state 9 7 addrs own_call.exchanges

abbrev session : List ℕ
session = 97 ∷ 98 ∷ []

-- Both connections have registered.
abbrev joined_server : Server ℕ ℕ ℕ
joined_server = record started_server { registered_conns = (11, tt) ∷ (12, tt) ∷ [] }

abbrev first_arrived : Server ℕ ℕ ℕ
first_arrived = (relay joined_server (some 11) session (some 21)).0

abbrev between : List Event
between = conn_registers 12 ∷ datagram (some (1 ∷ [])) true ∷ []

first-IsRegistered : IsRegistered joined_server 11
unfolding IsRegistered get
first-IsRegistered = ground arith

second-IsRegistered : IsRegistered (run first_arrived between) 12
unfolding IsRegistered get run step relay pair_up forward register_conn new_server put
second-IsRegistered = ground (arith, get-put ℕ_discrete 12 12 tt first_arrived.registered_conns)

relay-relay_example :
    ((relay joined_server (some 11) session (some 21)).1 ≡ waits)
    × ((relay (run first_arrived between) (some 12) session (some 22)).1 ≡ relaying 21 22)
    × (waiting_for (relay (run first_arrived between) (some 12) session (some 22)).0 session ≡ none)
unfolding waiting_for get new_server
relay-relay_example =
    relay-relay joined_server 11 12 21 22 session between refl first-IsRegistered (tt, (tt, tt))
      second-IsRegistered

-- A stream is handled, the client closes, and the other loop fails otherwise.
abbrev one_stream : List Conn.Event
one_stream =
    Conn.stream
    ∷ Conn.accept_fails (application_error 0x1003 true)
    ∷ Conn.handled
    ∷ Conn.accept_uni_fails failed
    ∷ []

one_stream_handled : (Conn.run Conn.new_conn one_stream).handlers ≡ 0
unfolding Conn.run Conn.step Conn.new_conn
one_stream_handled = refl

served-run_example :
    (Conn.served (Conn.run Conn.new_conn one_stream)
      ≡ some (
        if Conn.is_remote_client_closed (application_error 0x1003 true)
              && Conn.is_remote_client_closed failed
            then 0
            else Conn.err_code_accept_stream,
        (Conn.run Conn.new_conn one_stream).first,
      ))
    × (has_none (Conn.run Conn.new_conn one_stream).first ≡ (
        Conn.is_remote_client_closed (application_error 0x1003 true)
        && Conn.is_remote_client_closed failed))
served-run_example =
    served-run one_stream (application_error 0x1003 true) failed refl refl one_stream_handled
