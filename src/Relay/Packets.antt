-- ===== src/Relay/Packets.antt =====
-- The packets of internal/relay/relay.go: `writePacket`, `readPackets`, `readPacketWithTimeout` and the
-- workers of `Serve`. The goroutines are one state, and an event is one step of one of them; `none`
-- is an event that cannot happen in the state.
pub mod Laws
use star.Prelude.{
  ℕ, zero, suc, ◌+◌, ◌-◌, ◌%◌, ◌^◌, Bool, true, false, Option, none, some, List, [], ◌∷◌, ◌++◌,
  length, take, drop, get_elem?, ltb, ◌==◌, if◌then◌else◌,
}
use star.Relay.Routes.{Routes, route}

-- A packet read: the first `n` bytes of its buffer, and the sender.
pub record Packet (Addr : Type 0) : Type 0 where
  pub bytes : List ℕ
  pub addr : Addr

-- `UDPRelay`, with what its sockets were given to send.
pub record UdpRelay (Addr : Type 0) : Type 0 where
  pub routes : Routes Addr
  pub done : Bool
  pub bytes_in : ℕ
  pub bytes_out : ℕ
  pub dropped_packets : ℕ
  pub sent : List (Addr × List ℕ)

-- `Add` of an `atomic.Uint64`
unfoldable pub add_uint64 : ℕ → ℕ → ℕ
add_uint64 n k = (n + k) % 2 ^ 64

-- What `WriteToUDPAddrPort` does: an error, or the number of bytes written.
pub data Write : Type 0 where
  write_failed : Write
  wrote : ℕ → Write

pub data Written : Type 0 where
  ok unrouted failed short_write : Written

-- Where the reading goroutine is: before the test of `done`, in the read, with a packet, or at its
-- end, by `done` or by an error.
pub data Reader (Addr : Type 0) : Type 0 where
  checking reading : Reader Addr
  holding : Packet Addr → Reader Addr
  stopped : Bool → Reader Addr

-- `Serve`, with its `inbox`, a channel of capacity `workers`, the workers that have not returned with
-- an error, and the packets that workers hold.
pub record Serving (Addr : Type 0) : Type 0 where
  pub relay : UdpRelay Addr
  pub workers : ℕ
  pub live : ℕ
  pub reader : Reader Addr
  pub inbox : List (Packet Addr)
  pub writing : List (Packet Addr)
  -- The packets that no route, a failed write or the end of the relay has taken.
  pub lost : List (Packet Addr)

-- One step of one goroutine. The reader finds that `done` is open or that it is closed, reads a
-- packet, reaches the deadline, fails, puts its packet into the inbox, or gives it up for `done`; a
-- worker takes a packet or writes the one at a place.
pub data Event (Addr : Type 0) : Type 0 where
  closes sees_open times_out read_fails sees_done hands_over gives_up takes : Event Addr
  reads : Packet Addr → Event Addr
  writes : ℕ → Write → Event Addr

module _ {Addr : Type 0} where
  -- `NewUDPRelay` with a table of routes, and `Serve` before the first packet.
  abbrev pub new_udp_relay : Routes Addr → UdpRelay Addr
  new_udp_relay routes = record {
    routes = routes;
    done = false;
    bytes_in = 0;
    bytes_out = 0;
    dropped_packets = 0;
    sent = [];
  }

  abbrev pub start : Routes Addr → ℕ → Serving Addr
  start routes workers = record {
    relay = new_udp_relay routes;
    workers = workers;
    live = workers;
    reader = checking;
    inbox = [];
    writing = [];
    lost = [];
  }

module _ {Addr : Type 0} (dec : Discrete Addr) where
  unfoldable pub write_packet : UdpRelay Addr → Packet Addr → Write → UdpRelay Addr × Written
  write_packet r pkt outcome = elim (route dec r.routes pkt.addr) [
    | none ↦ (record r { dropped_packets = add_uint64 r.dropped_packets 1 }, unrouted)
    | some dst ↦ elim outcome [
      | write_failed ↦ (r, failed)
      | wrote n ↦
          if n == length pkt.bytes
          then (
            record r { bytes_out = add_uint64 r.bytes_out n; sent = (dst, pkt.bytes) ∷ r.sent },
            ok,
          )
          else (r, short_write)
    ]
  ]

module _ {Addr : Type 0} where
  -- The worker with the packet; a packet that was not sent is lost, and an error ends the worker.
  unfoldable pub finish :
      Serving Addr → List (Packet Addr) → Packet Addr → UdpRelay Addr × Written → Serving Addr
  finish s others pkt (r, ok) = record s { relay = r; writing = others }
  finish s others pkt (r, unrouted) = record s { relay = r; writing = others; lost = pkt ∷ s.lost }
  finish s others pkt (r, failed) = record s {
    relay = r;
    live = s.live - 1;
    writing = others;
    lost = pkt ∷ s.lost;
  }
  finish s others pkt (r, short_write) = record s {
    relay = r;
    live = s.live - 1;
    writing = others;
    lost = pkt ∷ s.lost;
  }

  unfoldable pub read_step : Serving Addr → Reader Addr → Event Addr → Option (Serving Addr)
  read_step s checking sees_open =
      if s.relay.done then none else some (record s { reader = reading })
  read_step s checking sees_done =
      if s.relay.done then some (record s { reader = stopped true }) else none
  read_step s reading (reads pkt) = some (record s {
    relay = record s.relay { bytes_in = add_uint64 s.relay.bytes_in (length pkt.bytes) };
    reader = holding pkt;
  })
  read_step s reading times_out = some (record s { reader = checking })
  read_step s reading read_fails = some (record s { reader = stopped false })
  read_step s (holding pkt) hands_over =
      if ltb (length s.inbox) s.workers
      then some (record s { reader = checking; inbox = s.inbox ++ pkt ∷ [] })
      else none
  read_step s (holding pkt) gives_up =
      if s.relay.done then some (record s { reader = stopped true; lost = pkt ∷ s.lost }) else none
  read_step s _ _ = none

module _ {Addr : Type 0} (dec : Discrete Addr) where
  unfoldable pub step : Serving Addr → Event Addr → Option (Serving Addr)
  unfolding read_step finish
  step s closes = some (record s { relay = record s.relay { done = true } })
  step s takes = elim s.inbox [
    | [] ↦ none
    | pkt ∷ rest ↦
        if ltb (length s.writing) s.live
        then some (record s { inbox = rest; writing = pkt ∷ s.writing })
        else none
  ]
  step s (writes i outcome) = elim (get_elem? s.writing i) [
    | none ↦ none
    | some pkt ↦
        let others = take i s.writing ++ drop (suc i) s.writing in
        some (finish s others pkt (write_packet dec s.relay pkt outcome))
  ]
  step s (reads pkt) = read_step s s.reader (reads pkt)
  step s sees_open = read_step s s.reader sees_open
  step s times_out = read_step s s.reader times_out
  step s read_fails = read_step s s.reader read_fails
  step s sees_done = read_step s s.reader sees_done
  step s hands_over = read_step s s.reader hands_over
  step s gives_up = read_step s s.reader gives_up

  unfoldable pub run : Serving Addr → List (Event Addr) → Option (Serving Addr)
  run s [] = some s
  run s (e ∷ es) = elim (step s e) [ none ↦ none | some t ↦ run t es ]
