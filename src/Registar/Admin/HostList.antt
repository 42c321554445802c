-- ===== src/Registar/Admin/HostList.antt =====
-- The host list of internal/registar/admin/admin.go against the host table of the server.
use native.Mathlib.Decide.{ℕ_discrete}
use star.Prelude.{Option-cases, inl, inr, ℕ, ◌≡◌, Option, none, some, List, [], ◌∷◌, arith}
use star.Prelude.Dict.{get, put, delete, get-put, get-delete}
use star.Registar.Server.{AddrPair, Agent, Server, Effect}
use star.Registar.Server.Hosts.{register_host, stream_closed}
use star.Registar.Admin.{Admin, callback, broadcast}

module _ {Key Addr : Type 0} (dec : Discrete Key) where
  -- The callbacks of a step, in order.
  pub callbacks : Admin Key Addr → List (Effect Key Addr) → Admin Key Addr
  callbacks a [] = a
  callbacks a (e ∷ es) = callbacks (callback dec a e) es

-- A host that registers with a stream, or the end of a stream.
pub data HostEvent (Key Addr : Type 0) : Type 0 where
  registers : ℕ → Key → AddrPair Addr → HostEvent Key Addr
  ends : ℕ → HostEvent Key Addr

module _ {Addr : Type 0} where
  abbrev pub addrs_of : Option (Agent Addr) → Option (AddrPair Addr)
  addrs_of none = none
  addrs_of (some host) = some host.addrs

module _ {Key CA Addr : Type 0} (dec : Discrete Key) where
  pub run :
      Server Key CA Addr
      → Admin Key Addr
      → List (HostEvent Key Addr)
      → Server Key CA Addr × Admin Key Addr
  run s a [] = (s, a)
  run s a (registers str key addrs ∷ events) =
      let (s', effects) = register_host dec s str key addrs in
      run s' (callbacks dec a effects) events
  run s a (ends str ∷ events) =
      let (s', effects) = stream_closed dec s str in run s' (callbacks dec a effects) events

  abbrev pub Lists : Server Key CA Addr → Admin Key Addr → Type 0
  Lists s a = (k : Key) → get dec k a.active_hosts ≡ addrs_of (get dec k s.hosts)

  registered :
      (s : Server Key CA Addr) (a : Admin Key Addr) (str : ℕ) (key : Key) (addrs : AddrPair Addr)
      → Lists s a
      → Lists
          (register_host dec s str key addrs).0
          (callbacks dec a (register_host dec s str key addrs).1)
  unfolding callbacks register_host callback broadcast
  registered s a str key addrs h k = elim (Option-cases (get dec key s.hosts)) [
    | inr (held, q) ↦ ground (arith, h k)
    | inl q ↦ ground (
      arith,
      h k,
      get-put dec key k addrs a.active_hosts,
      get-put dec key k (record { str = str; addrs = addrs }) s.hosts,
    )
  ]

  closed :
      (s : Server Key CA Addr) (a : Admin Key Addr) (str : ℕ)
      → Lists s a
      → Lists (stream_closed dec s str).0 (callbacks dec a (stream_closed dec s str).1)
  unfolding callbacks stream_closed callback broadcast
  closed s a str h k = elim (Option-cases (get ℕ_discrete str s.watchers)) [
    | inl q ↦ ground (arith, h k)
    | inr ((key, addrs), q) ↦
        ground (arith, h k, get-delete dec key k a.active_hosts, get-delete dec key k s.hosts)
  ]

  -- If each callback runs before the next event, the page lists the hosts of the server with their
  -- addresses, whatever hosts come and whatever streams end, if it does so at first.
  pub run-Lists :
      (s : Server Key CA Addr) (a : Admin Key Addr) (events : List (HostEvent Key Addr)) (k : Key)
      → Lists s a
      → get dec k (run s a events).1.active_hosts ≡ addrs_of (get dec k (run s a events).0.hosts)
  unfolding run
  run-Lists s a [] k h = h k
  run-Lists s a (registers str key addrs ∷ events) k h =
      run-Lists (register_host dec s str key addrs).0
        (callbacks dec a (register_host dec s str key addrs).1) events k
        (registered s a str key addrs h)
  run-Lists s a (ends str ∷ events) k h =
      run-Lists (stream_closed dec s str).0 (callbacks dec a (stream_closed dec s str).1) events k
        (closed s a str h)

  -- If the stream of a new host ends before the callback `HostConnected` runs, and its own callback
  -- comes first, the page lists the host although the server does not have it.
  late_connected :
      (s : Server Key CA Addr) (a : Admin Key Addr) (str : ℕ) (key : Key) (addrs : AddrPair Addr)
      → get dec key s.hosts ≡ none
      → (get dec key (stream_closed dec (register_host dec s str key addrs).0 str).0.hosts ≡ none)
        × (get dec key
              (callbacks dec
                (callbacks dec a (stream_closed dec (register_host dec s str key addrs).0 str).1)
                (register_host dec s str key addrs).1).active_hosts
            ≡ some addrs)
  unfolding callbacks register_host stream_closed callback broadcast
  late_connected s a str key addrs h = ground (
    arith,
    h,
    get-put ℕ_discrete str str (key, addrs) s.watchers,
    get-delete dec key key (put dec key (record { str = str; addrs = addrs }) s.hosts),
    get-put dec key key addrs (delete dec key a.active_hosts),
  )
