-- ===== src/Discovery/Serve/Laws.antt =====
-- What the server of internal/discovery/discovery.go sends: one answer for each valid request.
use star.Prelude.{ℕ, ◌≡◌, refl, true, false, Option, none, some, List, [], ◌∷◌, ◌++◌, length, arith}
use star.Discovery.Wire.{AddrPort, Request, marshal_request, marshal_response}
use star.Discovery.Wire.Laws.{unmarshal-marshal_request}
use star.Discovery.Serve.{Received, timeout, failed, packet, Round, Stop, Sent, answer, turn, serve}
use mathlib.Core.List.{append_assoc}

-- A read that does not fail, but by its deadline.
abbrev pub IsRead : Received → Type 0
IsRead failed = ⊥
IsRead timeout = Unit {0}
IsRead (packet buf raddr) = Unit {0}

-- The server is open, the read does not fail, and a write would succeed.
abbrev pub IsQuiet : Round → Type 0
IsQuiet r = (r.done ≡ false) × (r.write_ok ≡ true) × IsRead r.received

abbrev pub AllQuiet : List Round → Type 0
AllQuiet [] = Unit {0}
AllQuiet (r ∷ rs) = IsQuiet r × AllQuiet rs

-- The answers to the packets of the rounds, in order.
to_list : Option Sent → List Sent
to_list none = []
to_list (some s) = s ∷ []

reply : Received → List Sent
unfolding to_list
reply timeout = []
reply failed = []
reply (packet buf raddr) = to_list (answer buf raddr)

pub replies : List Round → List Sent
unfolding reply
replies [] = []
replies (r ∷ rs) = reply r.received ++ replies rs

turn-reply :
    (x : Received) (rest : List Sent × Stop)
    → IsRead x
    → turn x true rest ≡ (reply x ++ rest.0, rest.1)
unfolding turn reply
turn-reply timeout rest h = refl
turn-reply failed rest h = absurd h
turn-reply (packet buf raddr) rest h = ground arith

-- While the server is open, no read fails but by its deadline and writes would succeed, it sends
-- exactly the answers, in order, and goes on to what comes next.
pub serve-replies :
    (rs end : List Round)
    → AllQuiet rs
    → serve (rs ++ end) ≡ (replies rs ++ (serve end).0, (serve end).1)
unfolding serve replies
serve-replies [] end h = refl
serve-replies (r ∷ rs) end h =
    let rest = serve (rs ++ end) in
    let turned = turn-reply r.received rest h.0.2 in
    let more = serve-replies rs end h.1 in
    ground (arith, turned, more, append_assoc (reply r.received) (replies rs) (serve end).0)

-- A client's request is answered with its own id and the address that it was received from.
pub answer-marshal_request :
    (q : Request) (extra : List ℕ) (a : AddrPort)
    → length q.tx_id ≡ 16
    → answer (marshal_request q ++ extra) (some a)
      ≡ some (a, marshal_response (record { tx_id = q.tx_id; addr = a }))
unfolding answer
answer-marshal_request q extra a h = rw (unmarshal-marshal_request q extra h, answer)
