-- ===== src/Platform/Udp/Lock.antt =====
-- `connLock` of internal/platform/udp/listen.go: `dispatch` in its parts, between which `Close`, `Conn.Close`
-- and `Accept` may run, and the wait of `tryCloseConn` for the end of the read loop, under the lock.
pub mod Laws
use native.Mathlib.Decide.{ℕ_discrete}
use star.Prelude.{
  ℕ, suc, ◌⊎◌, inl, inr, Bool, true, false, ◌&&◌, ◌||◌, not, Option, none, some, List, [], ◌∷◌,
  ◌++◌, length, ltb, if◌then◌else◌,
}
use star.Prelude.Dict.{get, put, delete}
use star.Platform.Udp.{Conn, Listener, Case, by_queue, is_empty, accept, read, deliver}

-- What the read loop is at: it waits in `ReadFrom`; it has a packet to dispatch; it has put a new connection
-- into the queue and is to store it in the table; or it has returned.
pub data Reader (Addr : Type 0) : Type 0 where
  reading ended : Reader Addr
  holds : Addr → List ℕ → Reader Addr
  queued : Addr → ℕ → Reader Addr

-- `waiting`: a call holds the lock and waits for `readDone`.
pub record Locked (Addr : Type 0) : Type 0 where
  pub listener : Listener Addr
  pub reader : Reader Addr
  pub waiting : Bool

pub data Event (Addr : Type 0) : Type 0 where
  gets : Addr → List ℕ → Event Addr
  looks_up stores fails closes : Event Addr
  accepts : Case → Event Addr
  reads : ℕ → ℕ → Case → Event Addr
  closes_conn : ℕ → Event Addr

module _ {Addr : Type 0} where
  -- `tryCloseConn`, up to its wait.
  unfoldable pub try_close : Locked Addr → Locked Addr
  unfolding is_empty
  try_close s =
      if s.listener.done && is_empty s.listener.conns
      then record s {
        listener = record s.listener { socket_closed = true };
        waiting = not s.listener.read_done;
      }
      else s

  unfoldable pub close : Locked Addr → Locked Addr
  unfolding try_close
  close s =
      if s.listener.done
      then s
      else try_close (record s { listener = record s.listener { done = true } })

  -- `ReadFrom` returns a packet.
  unfoldable pub get_packet : Reader Addr → Addr → List ℕ → Reader Addr
  get_packet reading addr packet = holds addr packet
  get_packet ended addr packet = ended
  get_packet (holds a p) addr packet = holds a p
  get_packet (queued a id) addr packet = queued a id

  -- `ReadFrom` fails, `readDone` is closed, and the call that waits for it returns.
  unfoldable pub fail : Locked Addr → Reader Addr → Locked Addr
  fail s reading = record s {
    listener = record s.listener { read_done = true };
    reader = ended;
    waiting = false;
  }
  fail s ended = s
  fail s (holds a p) = s
  fail s (queued a id) = s

  -- A new connection, up to the queue.
  unfoldable pub enqueue : Locked Addr → Addr → List ℕ → Locked Addr
  enqueue s addr packet =
      let l = s.listener in
      if l.done
      then record s { reader = reading }
      else if ltb (length l.accept_queue) l.conn_backlog
      then record s {
        listener = record l {
          store =
              put ℕ_discrete l.next_conn
                (record { reads = packet ∷ []; write_addr = addr; done = false }) l.store;
          next_conn = suc l.next_conn;
          accept_queue = l.accept_queue ++ l.next_conn ∷ [];
        };
        reader = queued addr l.next_conn;
      }
      else record s { reader = reading }

module _ {Addr : Type 0} (dec : Discrete Addr) where
  -- `dispatch` from its `RLock` on, up to its `Lock`.
  unfoldable pub look_up : Locked Addr → Reader Addr → Locked Addr
  unfolding enqueue deliver
  look_up s (holds addr packet) = elim (get dec addr s.listener.conns) [
    | some id ↦ record s { listener = (deliver dec s.listener id packet).0; reader = reading }
    | none ↦ enqueue s addr packet
  ]
  look_up s reading = s
  look_up s ended = s
  look_up s (queued a id) = s

  -- `dispatch` under its `Lock`.
  unfoldable pub store_conn : Locked Addr → Reader Addr → Locked Addr
  store_conn s (queued addr id) = record s {
    listener = record s.listener { conns = put dec addr id s.listener.conns };
    reader = reading;
  }
  store_conn s reading = s
  store_conn s ended = s
  store_conn s (holds a p) = s

  -- `Conn.Close` with `release`, as one step: that it closes `done` before it gets the lock is not modelled.
  unfoldable pub close_conn : Locked Addr → ℕ → Locked Addr
  unfolding try_close
  close_conn s id = elim (get ℕ_discrete id s.listener.store) [
    | none ↦ s
    | some conn ↦
        if conn.done
        then s
        else try_close (record s {
          listener = record s.listener {
            store = put ℕ_discrete id (record conn { done = true }) s.listener.store;
            conns = delete dec conn.write_addr s.listener.conns;
          };
        })
  ]

  -- What needs the lock does not happen while a call waits.
  unfoldable pub step : Locked Addr → Event Addr → Locked Addr
  unfolding get_packet fail look_up store_conn close close_conn
  step s (gets addr packet) = record s { reader = get_packet s.reader addr packet }
  step s fails = fail s s.reader
  step s looks_up = if s.waiting then s else look_up s s.reader
  step s stores = if s.waiting then s else store_conn s s.reader
  step s closes = if s.waiting then s else close s
  step s (closes_conn id) = if s.waiting then s else close_conn s id
  step s (accepts c) = elim (accept s.listener c) [
    | none ↦ s
    | some r ↦ record s { listener = r.0 }
  ]
  step s (reads id n c) = elim (read s.listener id n c) [
    | none ↦ s
    | some r ↦ record s { listener = r.0 }
  ]

  unfoldable pub run : Locked Addr → List (Event Addr) → Locked Addr
  unfolding step
  run s [] = s
  run s (e ∷ es) = run (step s e) es
