-- ===== src/Tests/P2p.antt =====
-- Connectors and clients of internal/registar at concrete values.

use star.Prelude.{
  ℕ, ◌≡◌, ◌≢◌, ◌⊎◌, ℕ_discrete, refl, arith, true, false, ◌&&◌, not, none, some, List, [], ◌∷◌,
}
use star.Registar.P2p.Errors.{Error, wrapped, idle_timeout, stream_error, is_stream_error}
use star.Registar.P2p.Connector.{
  gives, fails, Turn, Incoming, accepts, accept_turn, accept_failure, is_empty, connected,
  read_handshake, finish, greater,
}
use star.Registar.P2p.Connector.Laws.{
  crossing, verdict, crossing-verdict, incoming_from, is_connected, is_given, is_nil, is_welcome,
  accept_turn_lem, AllAgain,
}
use star.Registar.Peer.{is_connect_failed}
use star.Registar.Peer
use star.Registar.Control.{connect_to}
use star.Registar.Client.{on_connect_to}
use star.Registar.Client.Laws.{
  answer_lost, delivered, is_delivered, exchange, handed_over, gave_up, connect_to-on_connect_to,
  connect_to-failed,
}
use star.Registar.P2p.Connect.{hands_over, returns, connect}
use star.Registar.P2p.Connect.Laws.{connect_lem, Explains, FailsToListen}
use star.Errcode.{host_closed, code_of, is_remote_stream_error}

abbrev id_a : List ℕ
id_a = 97 ∷ 98 ∷ []

abbrev id_b : List ℕ
id_b = 97 ∷ 99 ∷ []

id_a-ne : id_a ≢ id_b
id_a-ne e = ground (arith, e)

crossing-verdict_example :
    (crossing id_a id_b ≡ verdict (accepts id_a id_b))
    × (crossing id_b id_a ≡ verdict (not (accepts id_a id_b)))
unfolding is_empty
crossing-verdict_example = crossing-verdict id_a id_b id_a-ne refl refl

accept_turn_lem_example : is_connected (accept_turn id_b (incoming_from id_a)) ≡ (
    (incoming_from id_a).datagrams
    && (is_given (λ u. true) (incoming_from id_a).handshake.stream
        && is_given (is_welcome id_b) (incoming_from id_a).handshake.request
        && is_nil (incoming_from id_a).handshake.written
        && is_nil (incoming_from id_a).handshake.closed)
    && (incoming_from id_a).taken)
accept_turn_lem_example = accept_turn_lem id_b (incoming_from id_a)

-- A connection from a side that takes no datagrams.
abbrev no_datagrams : Turn Incoming
no_datagrams = record {
  datagrams = false;
  handshake = record { stream = gives tt; request = gives id_a; written = none; closed = none };
  taken = true;
  close_error = none;
}

no_datagrams-AllAgain : AllAgain (accept_turn id_b) accept_failure (gives no_datagrams ∷ [])
unfolding accept_turn
no_datagrams-AllAgain = ((some 1, refl), tt)

incoming_connects : accept_turn id_b (incoming_from id_a) ≡ connected
unfolding accept_turn incoming_from read_handshake finish accepts greater is_empty
incoming_connects = refl

connect_to-on_connect_to_example :
    Peer.is_nil (connect_to (exchange answer_lost true (on_connect_to false (some 5) none true)))
    ≡ (is_delivered answer_lost && true && handed_over (on_connect_to false (some 5) none true))
connect_to-on_connect_to_example =
    connect_to-on_connect_to answer_lost true false (some 5) none true

connect_to-failed_example :
    is_connect_failed (
      connect_to
        (exchange delivered true (on_connect_to false none (some (wrapped idle_timeout)) true)))
    ≡ (is_delivered delivered && true && gave_up false (some (wrapped idle_timeout)))
connect_to-failed_example =
    connect_to-failed delivered true false none (some (wrapped idle_timeout)) true

-- The other side reset the stream as the host closed.
abbrev reset : Error
reset = wrapped (stream_error 2 true)

reset_is_remote : is_remote_stream_error reset host_closed ≡ true
unfolding is_remote_stream_error code_of is_stream_error star.Registar.P2p.Errors.cause
    star.Registar.P2p.Errors.same
reset_is_remote = refl

-- The accept loop hands connection 7 over, and the two dial loops end.
connect_lem_example :
    FailsToListen none (some 7) none
    ⊎ Explains (some 7) none (hands_over 7 ∷ returns none ∷ returns none ∷ [])
unfolding connect star.Registar.P2p.Connector.dial_targets
connect_lem_example =
    connect_lem ℕ_discrete 1 2 none (hands_over 7 ∷ returns none ∷ returns none ∷ []) (some 7) none
      (ground arith)
