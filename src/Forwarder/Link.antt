-- ===== src/Forwarder/Link.antt =====
-- internal/forwarder/link.go: `link`, whose two goroutines take turns in any order. Times are
-- nanoseconds. A call that blocks is an event with what it returns.
pub mod Carries
pub mod Ends
pub mod Steps
use star.Prelude.{
  ℕ, ◌+◌, ◌-◌, Bool, true, false, ◌&&◌, ◌||◌, Option, none, some, List, [], ◌∷◌, ◌++◌, take, ltb,
  if◌then◌else◌,
}

-- `context_canceled` is an error that wraps `context.Canceled`.
pub data LinkError : Type 0 where
  idle_timeout context_canceled read_failed send_failed receive_failed write_failed : LinkError

-- What `conn.Read` returns: bytes, `os.ErrDeadlineExceeded`, or another error.
pub data ReadResult : Type 0 where
  bytes : List ℕ → ReadResult
  deadline_exceeded read_error : ReadResult

-- `polls`: a round of `read` with the time of its check, what `Read` returns, whether `SendDatagram`
-- succeeds, and the time at which the next `read` starts. `receives`: what `ReceiveDatagram` returns,
-- an error as none, and whether `Write` succeeds. `cancels`: the end of the caller's context.
pub data Event : Type 0 where
  polls : ℕ → ReadResult → Bool → ℕ → Event
  receives : Option (List ℕ) → Bool → Event
  cancels : Event

-- `first` is the error that `Wait` returns.
pub record Link : Type 0 where
  pub last_read : ℕ
  pub to_peer : List (List ℕ)
  pub to_game : List (List ℕ)
  pub cancelled : Bool
  pub udp_done : Bool
  pub datagrams_done : Bool
  pub first : Option LinkError

unfoldable pub start : ℕ → Link
start now = record {
  last_read = now;
  to_peer = [];
  to_game = [];
  cancelled = false;
  udp_done = false;
  datagrams_done = false;
  first = none;
}

abbrev pub or_else : Option LinkError → LinkError → Option LinkError
or_else none e = some e
or_else (some e) later = some e

-- The context of the group: the first error cancels it.
unfoldable pub ctx_done : Link → Bool
ctx_done l = l.cancelled || elim l.first [ none ↦ false | some e ↦ true ]

unfoldable pub udp_fails : Link → LinkError → Link
udp_fails l e = record l { udp_done = true; first = or_else l.first e }

unfoldable pub datagrams_fail : Link → LinkError → Link
datagrams_fail l e = record l { datagrams_done = true; first = or_else l.first e }

-- The size of the buffer.
abbrev pub buffer_size : ℕ
buffer_size = 1500

-- A round of the loop of `read`, and the send after a read that returns.
unfoldable pub poll : ℕ → Link → ℕ → ReadResult → Bool → ℕ → Link
unfolding ctx_done udp_fails
poll udp_idle_timeout l now result sent next =
    if ctx_done l
    then udp_fails l context_canceled
    else if ltb 0 udp_idle_timeout && ltb (l.last_read + udp_idle_timeout) now
    then udp_fails l idle_timeout
    else elim result [
      | deadline_exceeded ↦ l
      | read_error ↦ udp_fails l read_failed
      | bytes packet ↦
          if sent
          then record l { to_peer = l.to_peer ++ take buffer_size packet ∷ []; last_read = next }
          else udp_fails l send_failed
    ]

unfoldable pub receive : Link → Option (List ℕ) → Bool → Link
unfolding datagrams_fail
receive l none written = datagrams_fail l receive_failed
receive l (some datagram) true = record l { to_game = l.to_game ++ datagram ∷ [] }
receive l (some datagram) false = datagrams_fail l write_failed

-- A goroutine that has returned takes no more turns.
unfoldable pub step : ℕ → Link → Event → Link
unfolding poll receive
step udp_idle_timeout l (polls now result sent next) =
    if l.udp_done then l else poll udp_idle_timeout l now result sent next
step udp_idle_timeout l (receives datagram written) =
    if l.datagrams_done then l else receive l datagram written
step udp_idle_timeout l cancels = record l { cancelled = true }

unfoldable pub run : ℕ → Link → List Event → Link
unfolding step
run udp_idle_timeout l [] = l
run udp_idle_timeout l (e ∷ es) = run udp_idle_timeout (step udp_idle_timeout l e) es

-- What `link` returns once both goroutines have: the error is never nil.
unfoldable pub wait : Link → Option (Option LinkError)
wait l = if l.udp_done && l.datagrams_done then some l.first else none
