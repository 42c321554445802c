-- ===== src/Registar/Server/Register/Handover.antt =====
-- The order of `NewSessionCert` and `registerHost` in internal/registar/server.go, when the stream of
-- the old host of a game ends between the two calls for the new one.
use native.Mathlib.Decide.{ℕ_discrete}
use star.Prelude.{ℕ, ◌≡◌, ap, ◌∙◌, Option, none, some, arith}
use star.Prelude.Dict.{get, get-put, get-delete}
use star.Registar.Ca.{remove_session_ca}
use star.Registar.Server.{AddrPair, Agent, Server}
use star.Registar.Server.Hosts.{register_host, stream_closed}
use star.Registar.Server.Hosts.Laws.{IsWatched}
use star.Registar.Server.Register.{certify, Reachable}
use star.Registar.Server.Register.Laws.{Reachable-hosts}

module _ {Key CA Csr Cert Addr : Type 0} (dec : Discrete Key) (sign : CA → Csr → Option Cert) where
  -- The new host has got its certificate, the old host's stream ends, and the new host registers.
  pub handover :
      Server Key CA Addr → Key → Csr → Option CA → ℕ → ℕ → AddrPair Addr → Server Key CA Addr
  handover s key csr fresh old str addrs =
      let certified = certify dec sign s key csr fresh in
      let closed = (stream_closed dec certified old).0 in (register_host dec closed str key addrs).0

  removed :
      (s : Server Key CA Addr) (key : Key) (str : ℕ) (addrs : AddrPair Addr)
      → get ℕ_discrete str s.watchers ≡ some (key, addrs)
      → (get dec key (stream_closed dec s str).0.hosts ≡ none)
        × (get dec key (stream_closed dec s str).0.sessions ≡ none)
  unfolding stream_closed remove_session_ca
  removed s key str addrs h =
      ground (arith, get-delete dec key key s.hosts, get-delete dec key key s.sessions)

  added :
      (s : Server Key CA Addr) (key : Key) (str : ℕ) (addrs : AddrPair Addr)
      → get dec key s.hosts ≡ none
      → (get dec key (register_host dec s str key addrs).0.hosts
          ≡ some (record { str = str; addrs = addrs }))
        × ((register_host dec s str key addrs).0.sessions ≡ s.sessions)
  unfolding register_host
  added s key str addrs h =
      ground (arith, get-put dec key key (record { str = str; addrs = addrs }) s.hosts)

  -- In every reachable state in which a key has a host: if a new host of the key gets its certificate
  -- before the old host's stream ends and registers after it, the new host is accepted while its key
  -- has no authority.
  pub handover_lem :
      (s : Server Key CA Addr) (key : Key) (held : Agent Addr) (csr : Csr) (fresh : Option CA)
      (str : ℕ) (addrs : AddrPair Addr)
      → Reachable dec sign s
      → get dec key s.hosts ≡ some held
      → (get dec key (handover s key csr fresh held.str str addrs).hosts
          ≡ some (record { str = str; addrs = addrs }))
        × (get dec key (handover s key csr fresh held.str str addrs).sessions ≡ none)
  unfolding handover IsWatched certify
  handover_lem s key held csr fresh str addrs r found =
      let certified = certify dec sign s key csr fresh in
      let watched = (Reachable-hosts dec sign s r).0 key held found in
      let gone = removed certified key held.str held.addrs watched in
      let in_place = added (stream_closed dec certified held.str).0 key str addrs gone.0 in
      (in_place.0, ap (get dec key) in_place.1 ∙ gone.1)
