-- ===== src/Registar/P2p/Connector/Laws.antt =====
-- Two connectors of internal/registar/p2p/connector.go agree on one connection.
use star.Prelude.{
  ℕ, suc, ◌+◌, ◌≡◌, ◌≢◌, refl, ap, ◌∙◌, inl, inr, Bool, true, false, ◌&&◌, ◌||◌, ◌⊎◌, ltb, ◌==◌,
  not, Option, none, some, List, [], ◌∷◌, ◌++◌, length, arith, Option-cases, Bool-cases,
}
use star.Registar.P2p.Errors.{Error, errcode_conflict}
use star.Registar.P2p.Connector.{
  greater, is_empty, Outcome, gives, fails, Verdict, Incoming, Outgoing, status_of, accepts,
  read_handshake, send_handshake, read_status, stream_failure, Turn, Next, again, connected,
  after_read, after_send, finish, accept_turn, dial_turn, delivers, loop,
}

-- Of two different strings one is greater.
greater_ne : (a b : List ℕ) → a ≢ b → greater a b ≡ not (greater b a)
unfolding greater
greater_ne [] [] n = absurd (n refl)
greater_ne [] (y ∷ ys) n = refl
greater_ne (x ∷ xs) [] n = refl
greater_ne (x ∷ xs) (y ∷ ys) n = ground (arith, greater_ne xs ys)

tie_break : (a b : List ℕ) → a ≢ b → accepts b a ≡ not (accepts a b)
unfolding accepts
tie_break a b n = ground (arith, greater_ne a b n)

-- A turn of the accepting side in which every call works, for a peer with this id.
unfoldable pub incoming_from : List ℕ → Turn Incoming
incoming_from peer_id = record {
  datagrams = true;
  handshake = record { stream = gives tt; request = gives peer_id; written = none; closed = none };
  taken = true;
  close_error = none;
}

-- A turn of the dialling side in which every call works, with the response that it gets.
pub outgoing_to : ℕ → Turn Outgoing
outgoing_to status = record {
  datagrams = true;
  handshake = record {
    new_request = none;
    stream = gives tt;
    written = none;
    closed = none;
    response = gives status;
  };
  taken = true;
  close_error = none;
}

-- A connection that the connector `peer` dials and the connector `id` accepts: what each side does.
pub crossing : List ℕ → List ℕ → Next × Next
crossing id peer =
    (accept_turn id (incoming_from peer), dial_turn (outgoing_to (status_of (accepts id peer))))

pub verdict : Bool → Next × Next
verdict true = (connected, connected)
verdict false = (again (some errcode_conflict), again (some errcode_conflict))

crossing_lem :
    (id peer : List ℕ) → is_empty peer ≡ false → crossing id peer ≡ verdict (accepts id peer)
unfolding crossing verdict incoming_from outgoing_to accept_turn dial_turn read_handshake
    send_handshake read_status status_of finish
crossing_lem id peer h = elim (Bool-cases (accepts id peer)) [
  | inl yes_accepted ↦ ground arith
  | inr no_accepted ↦ ground arith
]

-- Two connectors with different ids that dial each other, with every call working: one of the two
-- connections is handed over on both sides, and the other is given up on both sides.
pub crossing-verdict :
    (a b : List ℕ)
    → a ≢ b
    → is_empty a ≡ false
    → is_empty b ≡ false
    → (crossing a b ≡ verdict (accepts a b)) × (crossing b a ≡ verdict (not (accepts a b)))
crossing-verdict a b n ha hb =
    (crossing_lem a b hb, crossing_lem b a ha ∙ ap verdict (tie_break a b n))

pub is_connected : Next → Bool
is_connected connected = true
is_connected _ = false

pub is_given : {A : Type 0} → (A → Bool) → Outcome A → Bool
is_given test (gives a) = test a
is_given test (fails e) = false

pub is_nil : Option Error → Bool
is_nil none = true
is_nil (some e) = false

-- The order of strings, byte by byte.
abbrev pub at_most : List ℕ → List ℕ → Bool
at_most [] b = true
at_most (x ∷ xs) [] = false
at_most (x ∷ xs) (y ∷ ys) = ltb x y || (x == y && at_most xs ys)

accepts_lem : (id peer : List ℕ) → accepts id peer ≡ at_most peer id
unfolding accepts greater
accepts_lem id [] = refl
accepts_lem [] (x ∷ xs) = refl
accepts_lem (y ∷ ys) (x ∷ xs) = ground (arith, accepts_lem ys xs)

-- A request from a peer that may connect: its id is not empty and at most this side's.
pub is_welcome : List ℕ → List ℕ → Bool
is_welcome id peer = not (is_empty peer) && at_most peer id

after_read-is_connected : (e : Error) → is_connected (after_read e) ≡ false
unfolding is_connected after_read
after_read-is_connected e = ground arith

after_send-is_connected : (e : Error) → is_connected (after_send e) ≡ false
unfolding is_connected after_send
after_send-is_connected e = ground arith

-- What a turn does after a handshake.
accepted-is_connected :
    (v : Verdict) (t : Turn Incoming)
    → is_connected
        (elim v.error [ some e ↦ after_read e | none ↦ finish v.accepted t.taken t.close_error ])
      ≡ (is_nil v.error && v.accepted && t.taken)
unfolding is_connected is_nil finish
accepted-is_connected v t = elim (Option-cases v.error) [
  | inl good ↦ ground arith
  | inr (e, bad) ↦ ground (arith, after_read-is_connected e)
]

Outcome-cases :
    {A : Type 0} (o : Outcome A) → ((a : A) × (o ≡ gives a)) ⊎ ((e : Error) × (o ≡ fails e))
Outcome-cases (gives a) = inl (a, refl)
Outcome-cases (fails e) = inr (e, refl)

read_handshake_lem :
    (id : List ℕ) (c : Incoming)
    → (is_nil (read_handshake id c).error && (read_handshake id c).accepted) ≡ (
        is_given (λ u. true) c.stream
        && is_given (is_welcome id) c.request
        && is_nil c.written
        && is_nil c.closed)
unfolding is_nil is_given is_welcome read_handshake stream_failure
read_handshake_lem id c = elim (Outcome-cases c.request) [
  | inl (peer, q) ↦ ground (arith, q, accepts_lem id peer)
  | inr (e, q) ↦ ground (arith, q)
]

-- The accepting side hands over a connection exactly if its other side takes datagrams, its request
-- names a peer with an id that is not empty and not greater than this side's, the stream, the response
-- and the close of the stream work, and the connection is still wanted.
pub accept_turn_lem :
    (id : List ℕ) (t : Turn Incoming)
    → is_connected (accept_turn id t) ≡ (
        t.datagrams
        && (is_given (λ u. true) t.handshake.stream
            && is_given (is_welcome id) t.handshake.request
            && is_nil t.handshake.written
            && is_nil t.handshake.closed)
        && t.taken)
unfolding accept_turn is_connected
accept_turn_lem id t = ground (
  arith,
  accepted-is_connected (read_handshake id t.handshake) t,
  read_handshake_lem id t.handshake,
)

module _ {Call : Type 0} (turn : Turn Call → Next) (failure : Error → Option Error) where
  -- Turns that lead to another one.
  abbrev pub AllAgain : List (Outcome (Turn Call)) → Type 0
  AllAgain [] = Unit
  AllAgain (fails e ∷ ts) = ⊥
  AllAgain (gives t ∷ ts) = ((code : Option ℕ) × (turn t ≡ again code)) × AllAgain ts

  -- A loop goes on past turns that lead to another one, and hands over the first connection that is
  -- accepted.
  loop_again :
      (k : ℕ) (before : List (Outcome (Turn Call))) (t : Turn Call)
      (after : List (Outcome (Turn Call)))
      → AllAgain before
      → turn t ≡ connected
      → loop turn failure k (before ++ gives t ∷ after) ≡ delivers (k + length before)
  unfolding loop
  loop_again k [] t after h e = ground arith
  loop_again k (fails x ∷ before) t after h e = absurd h
  loop_again k (gives u ∷ before) t after h e =
      ground (arith, loop_again (suc k) before t after h.1 e)
