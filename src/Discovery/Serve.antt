-- ===== src/Discovery/Serve.antt =====
-- `Server.Serve` of internal/discovery/discovery.go. What the socket does is a list of rounds, one
-- for each turn of the loop; the list is the loop's fuel, and the end of it a server still running.
pub mod Laws
use star.Prelude.{ℕ, Bool, true, false, not, Option, none, some, List, [], ◌∷◌, if◌then◌else◌}
use star.Discovery.Wire.{AddrPort, Request, Response, unmarshal_request, marshal_response}

-- What `ReadFrom` gives: no packet in time, another error, or a packet with its sender, which is
-- `none` if it is no UDP address.
pub data Received : Type 0 where
  timeout : Received
  failed : Received
  packet : List ℕ → Option AddrPort → Received

-- A turn of the loop: whether `done` is closed, what is received, whether a write succeeds.
pub record Round : Type 0 where
  pub done : Bool
  pub received : Received
  pub write_ok : Bool

pub data Stop : Type 0 where
  closed read_failed write_failed running : Stop

-- A packet that is sent: its bytes and where they go.
abbrev pub Sent : Type 0
Sent = AddrPort × List ℕ

-- What the server answers to a packet.
pub answer : List ℕ → Option AddrPort → Option Sent
answer buf raddr = elim (unmarshal_request buf) [
  | none ↦ none
  | some req ↦ elim raddr [
    | none ↦ none
    | some addr ↦ some (addr, marshal_response (record { tx_id = req.tx_id; addr = addr }))
  ]
]

-- The turn after `ReadFrom`, before what the later turns do.
turn : Received → Bool → List Sent × Stop → List Sent × Stop
turn timeout write_ok rest = rest
turn failed write_ok rest = ([], read_failed)
turn (packet buf raddr) write_ok rest = elim (answer buf raddr) [
  | none ↦ rest
  | some sent ↦ if write_ok then (sent ∷ rest.0, rest.1) else ([], write_failed)
]

pub serve : List Round → List Sent × Stop
unfolding turn
serve [] = ([], running)
serve (r ∷ rs) =
    let rest = serve rs in if r.done then ([], closed) else turn r.received r.write_ok rest
