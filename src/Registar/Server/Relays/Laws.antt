-- ===== src/Registar/Server/Relays/Laws.antt =====
-- `Relay` of internal/registar/server.go brings the two streams of a session together, whatever other
-- sessions do meanwhile.
use native.Mathlib.Decide.{ℕ_discrete}
use star.Prelude.{
  ℕ, ◌≡◌, refl, ◌∙◌, ◌≢◌, inl, inr, Bool, true, false, Option, none, some, List, [], ◌∷◌, arith,
  Option-cases,
}
use star.Prelude.Dict.{get, get-put, get-delete}
use star.Registar.Server.{Server}
use star.Registar.Server.Relays.{
  session_discrete, http_error, relaying, waits, register_conn, conn_closed, pair_up, relay, leave,
  forward,
}

-- What the relay side of the server meets.
pub data Event : Type 0 where
  conn_registers conn_ends : ℕ → Event
  arrives : Option ℕ → List ℕ → Option ℕ → Event
  leaves : List ℕ → Event
  datagram : Option (List ℕ) → Bool → Event

module _ {Key CA Addr : Type 0} where
  unfoldable pub step : Server Key CA Addr → Event → Server Key CA Addr
  step s (conn_registers conn) = register_conn s conn
  step s (conn_ends conn) = conn_closed s conn
  step s (arrives conn session taken) = (relay s conn session taken).0
  step s (leaves session) = leave s session
  step s (datagram dg sent) = (forward s dg sent).0

  unfoldable pub run : Server Key CA Addr → List Event → Server Key CA Addr
  run s [] = s
  run s (e ∷ es) = run (step s e) es

  -- The stream that waits for a session.
  unfoldable pub waiting_for : Server Key CA Addr → List ℕ → Option ℕ
  waiting_for s session = get session_discrete session s.relay_waiting

-- An event of another session, or of none.
abbrev pub IsOther : List ℕ → Event → Type 0
IsOther session (conn_registers conn) = Unit
IsOther session (conn_ends conn) = Unit
IsOther session (arrives conn s taken) = s ≢ session
IsOther session (leaves s) = s ≢ session
IsOther session (datagram dg sent) = Unit

abbrev pub AllOther : List ℕ → List Event → Type 0
AllOther session [] = Unit
AllOther session (e ∷ es) = IsOther session e × AllOther session es

module _ {Key CA Addr : Type 0} where
  waiting_for-relay :
      (s : Server Key CA Addr) (conn : Option ℕ) (other session : List ℕ) (taken : Option ℕ)
      → other ≢ session
      → waiting_for (relay s conn other taken).0 session ≡ waiting_for s session
  unfolding relay waiting_for
  waiting_for-relay s none other session taken n = refl
  waiting_for-relay s (some conn) other session none n =
      elim (Option-cases (get ℕ_discrete conn s.registered_conns)) [
        | inl bad ↦ ground arith
        | inr (u, good) ↦ ground arith
      ]
  waiting_for-relay s (some conn) other session (some str) n =
      elim (Option-cases (get ℕ_discrete conn s.registered_conns)) [
        | inl bad ↦ ground arith
        | inr (u, good) ↦ ground (
          arith,
          get-put session_discrete other session str s.relay_waiting,
          get-delete session_discrete other session s.relay_waiting,
        )
      ]

  step-waiting_for :
      (s : Server Key CA Addr) (e : Event) (session : List ℕ)
      → IsOther session e
      → waiting_for (step s e) session ≡ waiting_for s session
  unfolding step waiting_for register_conn conn_closed leave forward
  step-waiting_for s (conn_registers conn) session h = refl
  step-waiting_for s (conn_ends conn) session h = refl
  step-waiting_for s (arrives conn other taken) session h =
      waiting_for-relay s conn other session taken h
  step-waiting_for s (leaves other) session h =
      ground (arith, get-delete session_discrete other session s.relay_waiting)
  step-waiting_for s (datagram none sent) session h = refl
  step-waiting_for s (datagram (some dg) true) session h = refl
  step-waiting_for s (datagram (some dg) false) session h = refl

  run-waiting_for :
      (s : Server Key CA Addr) (es : List Event) (session : List ℕ)
      → AllOther session es
      → waiting_for (run s es) session ≡ waiting_for s session
  unfolding run
  run-waiting_for s [] session h = refl
  run-waiting_for s (e ∷ es) session h =
      run-waiting_for (step s e) es session h.1 ∙ step-waiting_for s e session h.0

  unfoldable pub IsRegistered : Server Key CA Addr → ℕ → Type 0
  IsRegistered s conn = get ℕ_discrete conn s.registered_conns ≡ some tt

  relay_first :
      (s : Server Key CA Addr) (conn str : ℕ) (session : List ℕ)
      → IsRegistered s conn
      → waiting_for s session ≡ none
      → ((relay s (some conn) session (some str)).1 ≡ waits)
        × (waiting_for (relay s (some conn) session (some str)).0 session ≡ some str)
  unfolding relay pair_up IsRegistered waiting_for
  relay_first s conn str session h free =
      ground (arith, get-put session_discrete session session str s.relay_waiting)

  relay_second :
      (s : Server Key CA Addr) (conn str waiting : ℕ) (session : List ℕ)
      → IsRegistered s conn
      → waiting_for s session ≡ some waiting
      → ((relay s (some conn) session (some str)).1 ≡ relaying waiting str)
        × (waiting_for (relay s (some conn) session (some str)).0 session ≡ none)
  unfolding relay pair_up IsRegistered waiting_for
  relay_second s conn str waiting session h e =
      ground (arith, get-delete session_discrete session session s.relay_waiting)

  -- If nobody waits for a session, a first stream from a registered connection waits. After any
  -- events of other sessions, a second stream from a registered connection is relayed with it, and
  -- nobody waits for the session any more.
  pub relay-relay :
      (s : Server Key CA Addr) (conn conn' str str' : ℕ) (session : List ℕ) (between : List Event)
      → waiting_for s session ≡ none
      → IsRegistered s conn
      → AllOther session between
      → IsRegistered (run (relay s (some conn) session (some str)).0 between) conn'
      → ((relay s (some conn) session (some str)).1 ≡ waits)
        × ((relay
              (run (relay s (some conn) session (some str)).0 between)
              (some conn')
              session
              (some str')).1
            ≡ relaying str str')
        × (waiting_for
              (relay
                (run (relay s (some conn) session (some str)).0 between)
                (some conn')
                session
                (some str')).0
              session
            ≡ none)
  relay-relay s conn conn' str str' session between free h other h' =
      let first = relay_first s conn str session h free in
      let s' = (relay s (some conn) session (some str)).0 in
      let still = run-waiting_for s' between session other ∙ first.1 in
      let second = relay_second (run s' between) conn' str' str session h' still in
      (first.0, second.0, second.1)

  -- A stream from a connection that has not registered is refused and changes nothing.
  pub relay_unregistered :
      (s : Server Key CA Addr) (conn : ℕ) (session : List ℕ) (taken : Option ℕ)
      → get ℕ_discrete conn s.registered_conns ≡ none
      → relay s (some conn) session taken ≡ (s, http_error 401)
  unfolding relay
  relay_unregistered s conn session taken h = ground arith

  relay_hosts :
      (s : Server Key CA Addr) (conn : Option ℕ) (session : List ℕ) (taken : Option ℕ)
      → ((relay s conn session taken).0.hosts ≡ s.hosts)
        × ((relay s conn session taken).0.watchers ≡ s.watchers)
  unfolding relay pair_up
  relay_hosts s none session taken = (refl, refl)
  relay_hosts s (some conn) session none =
      elim (Option-cases (get ℕ_discrete conn s.registered_conns)) [
        | inl bad ↦ ground arith
        | inr (u, good) ↦ ground arith
      ]
  relay_hosts s (some conn) session (some str) =
      elim (Option-cases (get ℕ_discrete conn s.registered_conns)) [
        | inl bad ↦ ground arith
        | inr (u, good) ↦ elim (Option-cases (get session_discrete session s.relay_waiting)) [
          | inl free ↦ ground arith
          | inr (waiting, found) ↦ ground arith
        ]
      ]

  -- The relays leave the hosts alone.
  pub step_hosts :
      (s : Server Key CA Addr) (e : Event)
      → ((step s e).hosts ≡ s.hosts) × ((step s e).watchers ≡ s.watchers)
  unfolding step register_conn conn_closed leave forward
  step_hosts s (conn_registers conn) = (refl, refl)
  step_hosts s (conn_ends conn) = (refl, refl)
  step_hosts s (arrives conn session taken) = relay_hosts s conn session taken
  step_hosts s (leaves session) = (refl, refl)
  step_hosts s (datagram none sent) = (refl, refl)
  step_hosts s (datagram (some dg) true) = (refl, refl)
  step_hosts s (datagram (some dg) false) = (refl, refl)
