-- ===== src/Registar/Server/Hosts/Laws.antt =====
-- The host table of internal/registar/server.go and the streams that the registar watches belong
-- together, whatever hosts come and go.
use native.Mathlib.Decide.{ℕ_discrete}
use star.Prelude.{ℕ, ◌≡◌, refl, inl, inr, none, some, List, [], ◌∷◌, arith, Option-cases}
use star.Prelude.Dict.{get, delete, get-put, get-delete}
use star.Registar.Ca.{remove_session_ca}
use star.Registar.Server.{AddrPair, Agent, Server}
use star.Registar.Server.Hosts.{register_host, stream_closed, close_hosts, close}

module _ {Key CA Addr : Type 0} (dec : Discrete Key) where
  -- Every host in the table is removed when its stream ends.
  unfoldable pub IsWatched : Server Key CA Addr → Type 0
  IsWatched s =
      (key : Key) (held : Agent Addr)
      → get dec key s.hosts ≡ some held
      → get ℕ_discrete held.str s.watchers ≡ some (key, held.addrs)

  -- A stream's function removes the host of that stream and no other.
  unfoldable pub IsOwned : Server Key CA Addr → Type 0
  IsOwned s =
      (str : ℕ) (key : Key) (addrs : AddrPair Addr)
      → get ℕ_discrete str s.watchers ≡ some (key, addrs)
      → get dec key s.hosts ≡ some (record { str = str; addrs = addrs })

  pub register_host-IsWatched :
      (s : Server Key CA Addr) (str : ℕ) (key : Key) (addrs : AddrPair Addr)
      → get ℕ_discrete str s.watchers ≡ none
      → IsWatched s
      → IsWatched (register_host dec s str key addrs).0
  unfolding register_host IsWatched
  register_host-IsWatched s str key addrs fresh h k held e =
      elim (Option-cases (get dec key s.hosts)) [
        | inr (a, taken) ↦ ground (arith, h k held)
        | inl free ↦
            let now = get-put dec key k (record { str = str; addrs = addrs }) s.hosts in
            let seen = get-put ℕ_discrete str held.str (key, addrs) s.watchers in
            elim (dec key k) [
              | yes same ↦ ground (arith, now, seen)
              | no other ↦ ground (arith, now, seen, h k held)
            ]
      ]

  pub register_host-IsOwned :
      (s : Server Key CA Addr) (str : ℕ) (key : Key) (addrs : AddrPair Addr)
      → IsOwned s
      → IsOwned (register_host dec s str key addrs).0
  unfolding register_host IsOwned
  register_host-IsOwned s str key addrs h i k a e = elim (Option-cases (get dec key s.hosts)) [
    | inr (held, taken) ↦ ground (arith, h i k a)
    | inl free ↦
        let now = get-put dec key k (record { str = str; addrs = addrs }) s.hosts in
        let seen = get-put ℕ_discrete str i (key, addrs) s.watchers in
        elim (ℕ_discrete str i) [
          | yes same ↦ ground (arith, now, seen)
          | no other ↦ ground (arith, now, seen, h i k a)
        ]
  ]

  pub stream_closed-IsWatched :
      (s : Server Key CA Addr) (str : ℕ) → IsWatched s → IsWatched (stream_closed dec s str).0
  unfolding stream_closed IsWatched
  stream_closed-IsWatched s str h k held e = elim (Option-cases (get ℕ_discrete str s.watchers)) [
    | inl idle ↦ ground (arith, h k held)
    | inr ((key, addrs), found) ↦ ground (
      arith,
      get-delete dec key k s.hosts,
      get-delete ℕ_discrete str held.str s.watchers,
      h k held,
    )
  ]

  pub stream_closed-IsOwned :
      (s : Server Key CA Addr) (str : ℕ) → IsOwned s → IsOwned (stream_closed dec s str).0
  unfolding stream_closed IsOwned
  stream_closed-IsOwned s str h i k a e = elim (Option-cases (get ℕ_discrete str s.watchers)) [
    | inl idle ↦ ground (arith, h i k a)
    | inr ((key, addrs), found) ↦ ground (
      arith,
      get-delete dec key k s.hosts,
      get-delete ℕ_discrete str i s.watchers,
      h i k a,
      h str key addrs found,
    )
  ]

  close_hosts_hosts :
      (key : Key) (visited : List (Key × Agent Addr)) (s : Server Key CA Addr)
      → get dec key (close_hosts dec visited s).hosts
        ≡ elim (get dec key visited) [ none ↦ get dec key s.hosts | some held ↦ none ]
  unfolding close_hosts get
  close_hosts_hosts key [] s = refl
  close_hosts_hosts key ((k, held) ∷ visited) s =
      let next : Server Key CA Addr = record s {
        hosts = delete dec k s.hosts;
        sessions = remove_session_ca dec s.sessions k;
      } in
      ground (arith, close_hosts_hosts key visited next, get-delete dec k key s.hosts)

  close_hosts_sessions :
      (key : Key) (visited : List (Key × Agent Addr)) (s : Server Key CA Addr)
      → get dec key (close_hosts dec visited s).sessions
        ≡ elim (get dec key visited) [ none ↦ get dec key s.sessions | some held ↦ none ]
  unfolding close_hosts get remove_session_ca
  close_hosts_sessions key [] s = refl
  close_hosts_sessions key ((k, held) ∷ visited) s =
      let next : Server Key CA Addr = record s {
        hosts = delete dec k s.hosts;
        sessions = remove_session_ca dec s.sessions k;
      } in
      ground (arith, close_hosts_sessions key visited next, get-delete dec k key s.sessions)

  -- After `Close` no key has a host. The authorities of the keys that had one are gone; those of
  -- other keys, which peers of unknown games have left, stay.
  pub close_lem :
      (key : Key) (s : Server Key CA Addr)
      → (get dec key (close dec s).hosts ≡ none)
        × (get dec key (close dec s).sessions
            ≡ elim (get dec key s.hosts) [ none ↦ get dec key s.sessions | some held ↦ none ])
  unfolding close
  close_lem key s = (
    elim (Option-cases (get dec key s.hosts)) [
      | inl free ↦ ground (arith, close_hosts_hosts key s.hosts s)
      | inr (held, taken) ↦ ground (arith, close_hosts_hosts key s.hosts s)
    ],
    close_hosts_sessions key s.hosts s,
  )
