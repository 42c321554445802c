-- ===== src/Registar/P2p/Connector.antt =====
-- `Connector` of internal/registar/p2p/connector.go: the handshake with its tie-break, the loops that
-- accept and dial, and `Connect`. A connection is the number of the turn that it came in; what the
-- transport does is a list of turns, at whose end a loop still waits.
pub mod Laws
use native.Mathlib.Decide.{ℕ_discrete}
use mathlib.Core.Logic.{ite}
use star.Prelude.{
  ℕ, suc, Bool, true, false, ◌&&◌, ◌||◌, not, Option, none, some, List, [], ◌∷◌, ltb, ◌==◌,
  if◌then◌else◌,
}
use star.Registar.P2p.Errors.{
  Error, canceled, bad_request, bad_status_code, wrapped, is_canceled, is_server_closed,
  is_request_cancelled_error, is_request_rejected_error, is_remote_conflict_error,
  is_remote_cancelled_error, is_bad_request, errcode_cancelled, errcode_bad_request,
  errcode_conflict,
}

-- `a > b` on Go strings: bytes in order, a prefix is smaller.
unfoldable pub greater : List ℕ → List ℕ → Bool
greater [] b = false
greater (x ∷ xs) [] = true
greater (x ∷ xs) (y ∷ ys) = ltb y x || (x == y && greater xs ys)

unfoldable pub is_empty : List ℕ → Bool
is_empty [] = true
is_empty (c ∷ cs) = false

-- What a call of the transport gives.
pub data Outcome (A : Type 0) : Type 0 where
  gives : A → Outcome A
  fails : Error → Outcome A

-- A handshake's result: a verdict, and an error. `true` with an error is possible, where the close
-- of the stream fails.
pub record Verdict : Type 0 where
  pub accepted : Bool
  pub error : Option Error

abbrev pub rejected : Error → Verdict
rejected e = record { accepted = false; error = some e }

-- An error of a read or a write on the stream: `context.Canceled` if it is this side's own reset.
pub stream_failure : (Error → Bool) → Error → Verdict
stream_failure is_own e = if is_own e then rejected canceled else rejected (wrapped e)

-- The calls of `readHandshake`: the stream, the peer's id in the request, empty if it has none, the
-- write of the response and the close of the stream.
pub record Incoming : Type 0 where
  pub stream : Outcome Unit
  pub request : Outcome (List ℕ)
  pub written : Option Error
  pub closed : Option Error

-- The status that is sent back with a verdict.
pub status_of : Bool → ℕ
status_of true = 200
status_of false = 409

-- The tie-break: a peer with a larger id is refused.
unfoldable pub accepts : List ℕ → List ℕ → Bool
accepts id peer_id = not (greater peer_id id)

unfoldable pub read_handshake : List ℕ → Incoming → Verdict
unfolding stream_failure is_empty accepts
read_handshake id c = elim c.stream [
  | fails e ↦ rejected (wrapped e)
  | gives u ↦ elim c.request [
    | fails e ↦ stream_failure (λ x. is_request_rejected_error x false) e
    | gives peer_id ↦ if is_empty peer_id then rejected bad_request else elim c.written [
      | some e ↦ stream_failure (λ x. is_request_rejected_error x false) e
      | none ↦ record { accepted = accepts id peer_id; error = c.closed }
    ]
  ]
]

-- The calls of `sendHandshake`: the request, the stream, the write of the request, the close, and
-- the status of the response.
pub record Outgoing : Type 0 where
  pub new_request : Option Error
  pub stream : Outcome Unit
  pub written : Option Error
  pub closed : Option Error
  pub response : Outcome ℕ

pub read_status : ℕ → Verdict
read_status status =
    if status == 409
    then record { accepted = false; error = none }
    else if status == 200
    then record { accepted = true; error = none }
    else rejected (bad_status_code status)

pub send_handshake : Outgoing → Verdict
unfolding stream_failure read_status
send_handshake c = elim c.new_request [
  | some e ↦ rejected e
  | none ↦ elim c.stream [
    | fails e ↦ rejected (wrapped e)
    | gives u ↦ elim c.written [
      | some e ↦ stream_failure (λ x. is_request_cancelled_error x false) e
      | none ↦ elim c.closed [
        | some e ↦ rejected (wrapped e)
        | none ↦ elim c.response [
          | fails e ↦ stream_failure (λ x. is_request_cancelled_error x false) e
          | gives status ↦ read_status status
        ]
      ]
    ]
  ]
]

-- A turn of a loop that has a connection: whether its other side takes datagrams, the handshake, and
-- whether the connection is taken or the context ends first, when its close may fail.
pub record Turn (Call : Type 0) : Type 0 where
  pub datagrams : Bool
  pub handshake : Call
  pub taken : Bool
  pub close_error : Option Error

-- What a turn leads to: another one, with the code that the connection is closed with if this side
-- closes it; the end of the loop; or the connection handed over.
pub data Next : Type 0 where
  again : Option ℕ → Next
  stop : Option Error → Next
  stop_closed : Option Error → Next
  connected : Next

-- The end of a turn after a handshake without an error.
unfoldable pub finish : Bool → Bool → Option Error → Next
finish accepted taken close_error =
    if accepted
    then (if taken then connected else stop_closed close_error)
    else again (some errcode_conflict)

-- What `acceptLoop` does with an error of `readHandshake`.
pub after_read : Error → Next
after_read e =
    if is_canceled e
    then again (some errcode_cancelled)
    else if is_request_cancelled_error e true
    then again (some errcode_cancelled)
    else if is_remote_cancelled_error e
    then again none
    else if is_bad_request e
    then again (some errcode_bad_request)
    else stop (some (wrapped e))

-- What `dialLoop` does with an error of `sendHandshake`.
pub after_send : Error → Next
after_send e =
    if is_canceled e
    then again (some errcode_cancelled)
    else if is_remote_conflict_error e
    then again none
    else if is_remote_cancelled_error e
    then again none
    else stop (some (wrapped e))

unfoldable pub accept_turn : List ℕ → Turn Incoming → Next
unfolding finish
accept_turn id t =
    if t.datagrams
    then (let v = read_handshake id t.handshake in
        elim v.error [ some e ↦ after_read e | none ↦ finish v.accepted t.taken t.close_error ])
    else again (some errcode_cancelled)

pub dial_turn : Turn Outgoing → Next
unfolding finish
dial_turn t =
    if t.datagrams
    then (let v = send_handshake t.handshake in
        elim v.error [ some e ↦ after_send e | none ↦ finish v.accepted t.taken t.close_error ])
    else again (some errcode_cancelled)

-- How a loop ends: with the connection of a turn, or with an error or nil.
pub data End : Type 0 where
  delivers : ℕ → End
  returns : Option Error → End
  waits : End

-- What `Accept` or `Dial` returns when it fails.
pub accept_failure : Error → Option Error
accept_failure e = if is_canceled e || is_server_closed e then none else some (wrapped e)

pub dial_failure : Error → Option Error
dial_failure e = if is_canceled e then none else some (wrapped e)

module _ {Call : Type 0} (turn : Turn Call → Next) (failure : Error → Option Error) where
  -- `acceptLoop` and `dialLoop`, from the connection with the number `k` on.
  pub loop : ℕ → List (Outcome (Turn Call)) → End
  loop k [] = waits
  loop k (fails e ∷ ts) = returns (failure e)
  loop k (gives t ∷ ts) =
      let rest = loop (suc k) ts in
      elim (turn t) [
        | again code ↦ rest
        | stop e ↦ returns e
        | stop_closed e ↦ returns e
        | connected ↦ delivers k
      ]

pub accept_loop : List ℕ → List (Outcome (Turn Incoming)) → End
accept_loop id ts = loop (accept_turn id) accept_failure 0 ts

pub dial_loop : List (Outcome (Turn Outgoing)) → End
dial_loop ts = loop dial_turn dial_failure 0 ts

-- The addresses that `Connect` dials: the private one, and the public one if it is another.
unfoldable pub dial_targets : {Addr : Type 0} → Discrete Addr → Addr → Addr → List Addr
dial_targets dec public_addr private_addr =
    ite (dec private_addr public_addr) (private_addr ∷ []) (private_addr ∷ public_addr ∷ [])
