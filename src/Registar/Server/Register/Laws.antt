-- ===== src/Registar/Server/Register/Laws.antt =====
-- What holds of the hosts in every state that internal/registar/server.go can reach, and that
-- `Register` is made of its steps.
use mathlib.Core.Logic.{ite}
use native.Mathlib.Decide.{ℕ_discrete}
use star.Prelude.{
  ℕ, ◌≡◌, refl, inl, inr, Bool, true, false, Option, none, some, arith, Option-cases, Bool-cases,
}
use star.Prelude.Dict.{get, get-delete}
use star.Registar.Ca.{new_session_cert, remove_session_ca}
use star.Registar.Server.{AddrPair, Agent, Server, new_server}
use star.Registar.Server.Hosts.{register_host, stream_closed}
use star.Registar.Server.Hosts.Laws.{
  IsWatched, IsOwned, register_host-IsWatched, register_host-IsOwned, stream_closed-IsWatched,
  stream_closed-IsOwned,
}
use star.Registar.Server.Peers.{Exchanges, connect_peer}
use star.Registar.Server.Peers.Laws.{connect_peer_lem}
use star.Registar.Server.Relays.{register_conn}
use star.Registar.Server.Relays.Laws.{step, conn_registers, step_hosts}
use star.Registar.Server.Register.{
  RegisterRequest, Call, certify, take_over, admit, register, Step, certifies, hosts_game,
  joins_game, ends_stream, relays_event, Reachable, start, next,
}

module _ {Key CA Addr : Type 0} (dec : Discrete Key) where
  keeps :
      (s t : Server Key CA Addr)
      → t.hosts ≡ s.hosts
      → t.watchers ≡ s.watchers
      → IsWatched dec s × IsOwned dec s
      → IsWatched dec t × IsOwned dec t
  unfolding IsWatched IsOwned
  keeps s t e e' h = (
    λ k held found. ground (arith, h.0 k held, e, e'),
    λ i k a found. ground (arith, h.1 i k a, e, e'),
  )

  connect_peer_hosts :
      (s : Server Key CA Addr) (str : ℕ) (key : Key) (addrs : AddrPair Addr) (e : Exchanges)
      → ((connect_peer dec s str key addrs e).0.hosts ≡ s.hosts)
        × ((connect_peer dec s str key addrs e).0.watchers ≡ s.watchers)
  connect_peer_hosts s str key addrs e = rw (connect_peer_lem dec s str key addrs e) (refl, refl)

module _ {Key CA Csr Cert Addr : Type 0} (dec : Discrete Key) (sign : CA → Csr → Option Cert) where
  Step-keeps :
      (s t : Server Key CA Addr)
      → Step dec sign s t
      → IsWatched dec s × IsOwned dec s
      → IsWatched dec t × IsOwned dec t
  unfolding certify
  Step-keeps _ _ (certifies s key csr fresh) h =
      keeps dec s (certify dec sign s key csr fresh) refl refl h
  Step-keeps _ _ (hosts_game s str key addrs new) h = (
    register_host-IsWatched dec s str key addrs new h.0,
    register_host-IsOwned dec s str key addrs h.1,
  )
  Step-keeps _ _ (joins_game s str key addrs e) h =
      let same = connect_peer_hosts dec s str key addrs e in
      keeps dec s (connect_peer dec s str key addrs e).0 same.0 same.1 h
  Step-keeps _ _ (ends_stream s str) h =
      (stream_closed-IsWatched dec s str h.0, stream_closed-IsOwned dec s str h.1)
  Step-keeps _ _ (relays_event s e) h =
      let same = step_hosts s e in keeps dec s (step s e) same.0 same.1 h

  -- In every reachable state of the open server, each host in the table has its stream watched, and
  -- each watched stream is that of the host of its key.
  pub Reachable-hosts :
      (s : Server Key CA Addr) → Reachable dec sign s → IsWatched dec s × IsOwned dec s
  unfolding IsWatched IsOwned new_server get
  Reachable-hosts _ start =
      (λ k held found. absurd (ground arith), λ i k a found. absurd (ground arith))
  Reachable-hosts _ (next s t r h) = Step-keeps s t h (Reachable-hosts s r)

  -- In a reachable state, a key that has a host keeps it when any other stream ends, and loses the
  -- host and its authority when the host's own stream ends.
  pub stream_closed_host :
      (s : Server Key CA Addr) (key : Key) (held : Agent Addr) (str : ℕ)
      → Reachable dec sign s
      → get dec key s.hosts ≡ some held
      → (get dec key (stream_closed dec s str).0.hosts
          ≡ ite (ℕ_discrete str held.str) none (some held))
        × (get dec key (stream_closed dec s str).0.sessions
            ≡ ite (ℕ_discrete str held.str) none (get dec key s.sessions))
  unfolding stream_closed IsWatched IsOwned remove_session_ca
  stream_closed_host s key held str r found =
      let watched = (Reachable-hosts s r).0 key held found in
      let owned = (Reachable-hosts s r).1 in
      elim (Option-cases (get ℕ_discrete str s.watchers)) [
        | inl idle ↦ ground arith
        | inr ((k, addrs), busy) ↦ ground (
          arith,
          owned str k addrs busy,
          get-delete dec k key s.hosts,
          get-delete dec k key s.sessions,
        )
      ]

  -- A second host of a key is refused, whatever stream it has.
  pub register_host_taken :
      (s : Server Key CA Addr) (key : Key) (held : Agent Addr) (str : ℕ) (addrs : AddrPair Addr)
      → get dec key s.hosts ≡ some held
      → (register_host dec s str key addrs).0 ≡ s
  unfolding register_host
  register_host_taken s key held str addrs found = ground arith

  register_host_or_connect :
      (s : Server Key CA Addr) (key : Key) (is_host : Bool) (str : ℕ) (addrs : AddrPair Addr)
      (e : Exchanges)
      → get ℕ_discrete str s.watchers ≡ none
      → Step dec sign s (take_over dec sign s key is_host str addrs e).0
  unfolding take_over
  register_host_or_connect s key true str addrs e new = hosts_game s str key addrs new
  register_host_or_connect s key false str addrs e new = joins_game s str key addrs e

  admit-Reachable :
      (s : Server Key CA Addr) (key : Key) (is_host : Bool) (req : RegisterRequest Csr Addr)
      (call : Call CA Csr Addr)
      → Reachable dec sign s
      → ((str : ℕ) → call.taken ≡ some str → get ℕ_discrete str s.watchers ≡ none)
      → Reachable dec sign (admit dec sign s key is_host req call).0
  unfolding admit step register_conn
  admit-Reachable s key is_host req call r new = elim (Bool-cases call.encoded) [
    | inr bad ↦ rw (bad) r
    | inl good ↦ rw (good) elim (Option-cases call.conn) [
      | inl none_found ↦ rw (none_found) r
      | inr ((conn, public_addr), found) ↦
          let s' = register_conn s conn in
          let r' : Reachable dec sign s' = next s s' r (relays_event s (conn_registers conn)) in
          rw (found) elim (Option-cases call.taken) [
            | inl failed ↦ rw (failed) r'
            | inr (str, ok) ↦
                let addrs : AddrPair Addr = record {
                  public_addr = public_addr;
                  private_addr = req.private_addr;
                } in
                rw (ok) (
                  next s' (take_over dec sign s' key is_host str addrs call.exchanges).0 r'
                    (register_host_or_connect s' key is_host str addrs call.exchanges (new str ok)))
          ]
    ]
  ]

  -- The handler is a sequence of the steps, with every way that it can end: from a reachable state
  -- it leads to a reachable state, if its stream is not watched yet.
  register-Reachable :
      (s : Server Key CA Addr) (key : Key) (is_host : Bool) (call : Call CA Csr Addr)
      → Reachable dec sign s
      → ((str : ℕ) → call.taken ≡ some str → get ℕ_discrete str s.watchers ≡ none)
      → Reachable dec sign (register dec sign s key is_host call).0
  unfolding register certify
  register-Reachable s key is_host call r new = elim (Option-cases call.body) [
    | inl bad ↦ rw (register, bad) r
    | inr (req, read) ↦
        let s' = certify dec sign s key req.csr call.fresh in
        let r' : Reachable dec sign s' = next s s' r (certifies s key req.csr call.fresh) in
        rw (register, read)
          elim (Option-cases (new_session_cert dec sign s.sessions key req.csr call.fresh).1) [
            | inl bad ↦ rw (bad) r'
            | inr (issued, ok) ↦ rw (ok) (admit-Reachable s' key is_host req call r' new)
          ]
  ]
