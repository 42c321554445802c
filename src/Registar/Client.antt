-- ===== src/Registar/Client.antt =====
-- internal/registar/client.go: how a client registers, what its control agent does for the registar,
-- and what `Join`, `Accept` and `Close` return. The calls of libraries enter with their results, in the
-- order in which they are made.
pub mod Laws
pub mod Tls
use star.Prelude.{
  ℕ, ◌⊎◌, inl, inr, Bool, true, false, ◌&&◌, ◌||◌, Option, none, some, List, [], ◌∷◌, ◌==◌,
  if◌then◌else◌,
}
use star.Registar.P2p.Errors.{
  Error, canceled, bad_status_code, wrapped, cause, http3_error, idle_timeout, is_stream_error,
  same,
}
use star.Registar.P2p.Connector.{Outcome, gives, fails}
use star.Registar.Control.{Attempt, started, broken}

-- `errCodeClientClosed`
abbrev pub err_code_client_closed : ℕ
err_code_client_closed = 0x1003

-- The codes of server.go that a client looks for.
abbrev pub err_code_host_already_registered : ℕ
err_code_host_already_registered = 0x1001

abbrev pub err_code_host_not_found : ℕ
err_code_host_not_found = 0x1002

unfoldable pub is_http3_error : Error → ℕ → Bool → Bool
is_http3_error e code is_remote = elim (cause e) [
  | http3_error c remote ↦ c == code && same remote is_remote
  | _ ↦ false
]

unfoldable pub is_local_http3_close_error : Error → Bool
is_local_http3_close_error e = is_http3_error e err_code_client_closed false

unfoldable pub is_host_not_found_error : Error → Bool
is_host_not_found_error e =
    is_stream_error e err_code_host_not_found true || is_http3_error e err_code_host_not_found true

unfoldable pub is_host_already_registered_error : Error → Bool
is_host_already_registered_error e =
    is_stream_error e err_code_host_already_registered true
    || is_http3_error e err_code_host_already_registered true

unfoldable pub is_idle_timeout : Error → Bool
is_idle_timeout e = elim (cause e) [ idle_timeout ↦ true | _ ↦ false ]

-- The calls of `register`: the key, the CSR, the encoding, the request, the stream and the header,
-- each with its error; the response, its status or an error; what the goroutine that sends the body
-- reports; and the decoding of the answer.
pub record RegisterCalls : Type 0 where
  pub before : List (Option Error)
  pub response : Outcome ℕ
  pub body_sent : Option Error
  pub decoded : Option Error

-- The first error of calls that are made in order.
first_error : List (Option Error) → Option Error
first_error [] = none
first_error (none ∷ es) = first_error es
first_error (some e ∷ es) = some (wrapped e)

-- `register` up to the response, and after it; `none` is success.
pub register : RegisterCalls → Option Error
unfolding first_error
register c = elim (first_error c.before) [
  | some e ↦ some e
  | none ↦ elim c.response [
    | fails e ↦ some (wrapped e)
    | gives status ↦
        if status == 200
        then first_error (c.body_sent ∷ c.decoded ∷ [])
        else some (bad_status_code status)
  ]
]

-- The errors of the clients: those of client.go, and others.
pub data ClientError : Type 0 where
  host_not_found host_already_registered hoster_closed : ClientError
  other : Error → ClientError

-- What `NewHoster` returns for an error of `connect` or of `register`.
pub new_hoster : Option Error → RegisterCalls → Option ClientError
new_hoster connect_err calls = elim connect_err [
  | some e ↦ some (other e)
  | none ↦ elim (register calls) [
    | none ↦ none
    | some e ↦
        if is_host_already_registered_error e
        then some host_already_registered
        else some (other (wrapped e))
  ]
]

-- The function of the group that serves the agent.
unfoldable pub serve_agent : Option Error → Option Error
serve_agent none = none
serve_agent (some e) = if is_local_http3_close_error e then none else some (wrapped e)

-- How `Join` ends once it is registered: with a connection, or by its context, when the agent ends
-- with an error or none.
pub data Joined : Type 0 where
  connection : ℕ → Joined
  cancelled : Option Error → Joined
  refused : ClientError → Joined

-- `Join`; `arrives` is the connection that the agent hands over, if one comes before the context ends.
pub join : RegisterCalls → Option ℕ → Option Error → Joined
join calls arrives agent_err = elim (register calls) [
  | some e ↦
      if is_host_not_found_error e then refused host_not_found else refused (other (wrapped e))
  | none ↦ elim arrives [ some conn ↦ connection conn | none ↦ cancelled (serve_agent agent_err) ]
]

-- `Hoster.Accept`: the case of its select.
pub data Ready : Type 0 where
  conn_ready : ℕ → Ready
  done_closed context_done : Ready

pub accept : Ready → ℕ ⊎ ClientError
accept (conn_ready conn) = inl conn
accept done_closed = inr hoster_closed
accept context_done = inr (other canceled)

-- `Hoster.Close`, with the error that the agent ended with.
pub close : Option Error → Option Error
close agent_err = elim (serve_agent agent_err) [
  | none ↦ none
  | some e ↦ if is_local_http3_close_error e then none else some (wrapped e)
]

-- What the callback of `OnConnectTo` returns, and the connection that it puts into `conns`.
pub record Handed : Type 0 where
  pub ok : Bool
  pub error : Option Error
  pub handed : Option ℕ

-- The connection and the error that `Connector.Connect` has returned without an error: a nil connection is
-- put into the channel or closed, and the call of its method panics, which is `none`.
unfoldable pub hand_over : Option ℕ → Bool → Option Handed
hand_over none taken = none
hand_over (some conn) true = some (record { ok = true; error = none; handed = some conn })
hand_over (some conn) false = some (record { ok = false; error = some canceled; handed = none })

-- The callback of `OnConnectTo`: `conn` and `err` are what `Connector.Connect` returns, and `taken`
-- whether the channel takes the connection before the context ends.
unfoldable pub on_connect_to : Bool → Option ℕ → Option Error → Bool → Option Handed
unfolding is_idle_timeout hand_over
on_connect_to true conn err taken = some (record { ok = false; error = none; handed = none })
on_connect_to false conn (some e) taken =
    if is_idle_timeout e
    then some (record { ok = false; error = none; handed = none })
    else some (record { ok = false; error = some (wrapped e); handed = none })
on_connect_to false conn none taken = hand_over conn taken

-- What the agent sees of it.
unfoldable pub attempt : Handed → Attempt
attempt r = elim r.error [ some e ↦ broken | none ↦ started r.ok ]

-- The callback of `OnConnectViaRelay`: the errors of the calls up to the response, the response, and
-- the stream with whether the channel takes it.
pub on_connect_via_relay : List (Option Error) → Outcome ℕ → ℕ → Bool → Handed
unfolding first_error
on_connect_via_relay before response stream taken = elim (first_error before) [
  | some e ↦ record { ok = false; error = some e; handed = none }
  | none ↦ elim response [
    | fails e ↦ record { ok = false; error = some (wrapped e); handed = none }
    | gives status ↦
        if status == 200
        then (if taken
            then record { ok = true; error = none; handed = some stream }
            else record { ok = false; error = some canceled; handed = none })
        else record { ok = false; error = some (bad_status_code status); handed = none }
  ]
]
