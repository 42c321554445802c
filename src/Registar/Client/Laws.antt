-- ===== src/Registar/Client/Laws.antt =====
-- What the registar learns of a client of internal/registar/client.go, and what the client learns of
-- the registar.
use star.Prelude.{
  ℕ, ◌≡◌, refl, ap, ◌∙◌, Bool, true, false, ◌||◌, ◌&&◌, Bool-cases, inl, inr, Option, none, some,
  List, arith,
}
use star.Registar.P2p.Errors.{Error}
use star.Registar.P2p.Connector.{Outcome}
use star.Registar.Peer.{is_nil, is_connect_failed}
use star.Registar.Control.{
  Exchange, unsent, unanswered, broken, answered, connect_to, connect_via_relay, connect_to_request,
  relay_request, serve_one,
}
use star.Registar.Control.Laws.{report, connect_to-serve_one, connect_via_relay-serve_one}
use star.Registar.Client.{
  Handed, hand_over, on_connect_to, attempt, on_connect_via_relay, is_idle_timeout,
}

-- Whether a connection was put into the channel.
pub has_handed : Handed → Bool
has_handed r = elim r.handed [ none ↦ false | some conn ↦ true ]

-- What becomes of the command on the stream.
pub data Delivery : Type 0 where
  request_lost answer_lost delivered : Delivery

abbrev pub is_delivered : Delivery → Bool
is_delivered request_lost = false
is_delivered answer_lost = false
is_delivered delivered = true

-- What the registar sees, for a callback that has ended so, if it is called: it is for a command that is
-- decoded. A panic ends the process, and no answer comes.
abbrev pub exchange : Delivery → Bool → Option Handed → Exchange
exchange request_lost decoded called = unsent
exchange answer_lost decoded called = unanswered
exchange delivered false called = answered (serve_one (connect_to_request false broken))
exchange delivered true none = unanswered
exchange delivered true (some r) = answered (serve_one (connect_to_request true (attempt r)))

abbrev pub handed_over : Option Handed → Bool
handed_over none = false
handed_over (some r) = has_handed r

-- `ConnectTo` after an exchange.
connect_to-exchange :
    (d : Delivery) (decoded : Bool) (called : Option Handed)
    → (is_nil (connect_to (exchange d decoded called)) ≡ (
        is_delivered d
        && decoded
        && elim called [ none ↦ false | some r ↦ is_nil (report true (attempt r)) ]))
      × (is_connect_failed (connect_to (exchange d decoded called)) ≡ (
          is_delivered d
          && decoded
          && elim called [ none ↦ false | some r ↦ is_connect_failed (report true (attempt r)) ]))
unfolding connect_to is_nil is_connect_failed report
connect_to-exchange request_lost decoded called = (refl, refl)
connect_to-exchange answer_lost decoded called = (refl, refl)
connect_to-exchange delivered false called =
    let e = connect_to-serve_one false broken in (ap is_nil e, ap is_connect_failed e)
connect_to-exchange delivered true none = (refl, refl)
connect_to-exchange delivered true (some r) =
    let e = connect_to-serve_one true (attempt r) in (ap is_nil e, ap is_connect_failed e)

abbrev called : Bool → Option ℕ → Option Error → Bool → Option Handed
called = on_connect_to

-- The client does not try, or its attempt ran into the idle timeout.
abbrev pub gave_up : Bool → Option Error → Bool
gave_up disable_p2p err = disable_p2p || elim err [ none ↦ false | some e ↦ is_idle_timeout e ]

reported :
    (disable_p2p : Bool) (conn : Option ℕ) (err : Option Error) (taken : Bool)
    → (elim (called disable_p2p conn err taken) [
      | none ↦ false
      | some r ↦ is_nil (report true (attempt r))
    ]
        ≡ handed_over (called disable_p2p conn err taken))
      × (elim (called disable_p2p conn err taken) [
        | none ↦ false
        | some r ↦ is_connect_failed (report true (attempt r))
      ]
          ≡ gave_up disable_p2p err)
unfolding on_connect_to attempt report is_nil is_connect_failed has_handed hand_over
reported true conn err taken = (refl, refl)
reported false conn (some e) taken = elim (Bool-cases (is_idle_timeout e)) [
  | inl q ↦ (ground (arith, q), ground (arith, q))
  | inr q ↦ (ground (arith, q), ground (arith, q))
]
reported false none none taken = (refl, refl)
reported false (some c) none true = (refl, refl)
reported false (some c) none false = (refl, refl)

-- The registar takes a client for directly connected exactly if the client gets the command and can
-- decode it, the client's agent has handed a connection over to its user, and its answer arrives.
pub connect_to-on_connect_to :
    (d : Delivery) (decoded disable_p2p : Bool) (conn : Option ℕ) (err : Option Error)
    (taken : Bool)
    → is_nil (connect_to (exchange d decoded (on_connect_to disable_p2p conn err taken)))
      ≡ (is_delivered d && decoded && handed_over (on_connect_to disable_p2p conn err taken))
connect_to-on_connect_to d decoded disable_p2p conn err taken =
    (connect_to-exchange d decoded (on_connect_to disable_p2p conn err taken)).0
    ∙ ap (λ b. is_delivered d && decoded && b) (reported disable_p2p conn err taken).0

-- The registar learns that a client found no way to the other exactly if the client gets the command
-- and can decode it, it does not try direct connections or its attempt ran into the idle timeout, and
-- its answer arrives.
pub connect_to-failed :
    (d : Delivery) (decoded disable_p2p : Bool) (conn : Option ℕ) (err : Option Error)
    (taken : Bool)
    → is_connect_failed (connect_to (exchange d decoded (on_connect_to disable_p2p conn err taken)))
      ≡ (is_delivered d && decoded && gave_up disable_p2p err)
connect_to-failed d decoded disable_p2p conn err taken =
    (connect_to-exchange d decoded (on_connect_to disable_p2p conn err taken)).1
    ∙ ap (λ b. is_delivered d && decoded && b) (reported disable_p2p conn err taken).1

-- The callback of `OnConnectViaRelay` succeeded.
pub is_success : Handed → Bool
is_success r = elim r.error [ none ↦ true | some e ↦ false ]

on_connect_via_relay_lem :
    (before : List (Option Error)) (response : Outcome ℕ) (stream : ℕ) (taken : Bool)
    → is_success (on_connect_via_relay before response stream taken)
      ≡ has_handed (on_connect_via_relay before response stream taken)
unfolding is_success has_handed on_connect_via_relay
on_connect_via_relay_lem before response stream taken = ground arith

relay-is_nil :
    (ok : Bool) → is_nil (connect_via_relay (answered (serve_one (relay_request ok)))) ≡ ok
unfolding is_nil
relay-is_nil true = ap is_nil (connect_via_relay-serve_one true)
relay-is_nil false = ap is_nil (connect_via_relay-serve_one false)

-- The registar takes a client for relayed exactly if the client's agent has handed the stream over
-- to its user.
connect_via_relay-on_connect_via_relay :
    (before : List (Option Error)) (response : Outcome ℕ) (stream : ℕ) (taken : Bool)
    → is_nil (
        connect_via_relay (
          answered (
            serve_one
              (relay_request (is_success (on_connect_via_relay before response stream taken))))))
      ≡ has_handed (on_connect_via_relay before response stream taken)
connect_via_relay-on_connect_via_relay before response stream taken =
    relay-is_nil (is_success (on_connect_via_relay before response stream taken))
    ∙ on_connect_via_relay_lem before response stream taken
