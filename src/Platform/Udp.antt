-- ===== src/Platform/Udp.antt =====
-- internal/platform/udp: the listener of listen.go and the connections of conn.go. Connections are
-- shared by the table, the accept queue and their users, so they live in a store and are referred to
-- by their number. A select of several ready cases takes the one that the argument names; `none` is
-- a call that blocks in this case.
pub mod Lock
pub mod Sound
pub mod Runs
pub mod Delivery
use native.Mathlib.Decide.{ℕ_discrete}
use star.Prelude.{
  ℕ, suc, ◌⊎◌, inl, inr, Bool, true, false, ◌&&◌, Option, none, some, List, [], ◌∷◌, ◌++◌, length,
  take, ltb, if◌then◌else◌, ◌==◌,
}
use star.Prelude.Dict.{get, put, delete}

pub data Error : Type 0 where
  closed_listener listen_queue_exceeded read_buffer_exceeded deadline_exceeded closed : Error
  read_failed write_failed : Error

-- `Conn`: the channel `reads`, the address of the other side, and whether `done` is closed. The
-- deadlines enter as the case of a select in which they have passed.
pub record Conn (Addr : Type 0) : Type 0 where
  pub reads : List (List ℕ)
  pub write_addr : Addr
  pub done : Bool

-- `Listener`; `socket_closed` is the state of its `net.UDPConn`, `read_done` that of the channel that
-- the read loop closes at its end.
pub record Listener (Addr : Type 0) : Type 0 where
  pub store : List (ℕ × Conn Addr)
  pub next_conn : ℕ
  pub accept_queue : List ℕ
  pub conn_backlog : ℕ
  pub read_buffer_size : ℕ
  pub conns : List (Addr × ℕ)
  pub done : Bool
  pub read_done : Bool
  pub socket_closed : Bool

abbrev pub default_conn_backlog : ℕ
default_conn_backlog = 128

abbrev pub default_read_buffer_size : ℕ
default_read_buffer_size = 512

-- `Listen` of a `ListenConfig`; a size that is not positive is zero here, and gives the default.
unfoldable pub listen : (Addr : Type 0) → ℕ → ℕ → Listener Addr
listen Addr conn_backlog read_buffer_size = record {
  store = [];
  next_conn = 0;
  accept_queue = [];
  conn_backlog = if conn_backlog == 0 then default_conn_backlog else conn_backlog;
  read_buffer_size = if read_buffer_size == 0 then default_read_buffer_size else read_buffer_size;
  conns = [];
  done = false;
  read_done = false;
  socket_closed = false;
}

-- Which case a select takes.
pub data Case : Type 0 where
  by_queue by_read_done by_done by_deadline by_default : Case

module _ {Addr : Type 0} where
  unfoldable pub is_empty : List (Addr × ℕ) → Bool
  is_empty [] = true
  is_empty (c ∷ cs) = false

  -- `tryCloseConn`, if the read loop waits for a packet: closing the socket ends the loop, for which it
  -- waits. Lock has the wait, and the loop in `dispatch`.
  pub try_close_conn : Listener Addr → Listener Addr
  unfolding is_empty
  try_close_conn l =
      if l.done && is_empty l.conns then record l { socket_closed = true; read_done = true } else l

  pub close : Listener Addr → Listener Addr
  close l = if l.done then l else try_close_conn (record l { done = true })

  -- The end of `readLoop` by an error of the socket.
  pub read_fails : Listener Addr → Listener Addr
  read_fails l = record l { read_done = true }

  pub accept : Listener Addr → Case → Option (Listener Addr × (ℕ ⊎ Error))
  accept l by_queue = elim l.accept_queue [
    | [] ↦ none
    | id ∷ rest ↦ some (record l { accept_queue = rest }, inl id)
  ]
  accept l by_read_done = if l.read_done then some (l, inr read_failed) else none
  accept l by_done = if l.done then some (l, inr closed_listener) else none
  accept l _ = none

  -- `Conn.Read` of a connection into a buffer of `n` bytes.
  pub read : Listener Addr → ℕ → ℕ → Case → Option (Listener Addr × (List ℕ ⊎ Error))
  read l id n c = elim (get ℕ_discrete id l.store) [
    | none ↦ none
    | some conn ↦ elim c [
      | by_deadline ↦ some (l, inr deadline_exceeded)
      | by_done ↦ if conn.done then some (l, inr closed) else none
      | by_queue ↦ elim conn.reads [
        | [] ↦ none
        | packet ∷ rest ↦ some (
          record l { store = put ℕ_discrete id (record conn { reads = rest }) l.store },
          inl (take n packet),
        )
      ]
      | by_read_done ↦ none
      | by_default ↦ none
    ]
  ]

  -- `Conn.Write`: where the bytes go, if no case but the default is ready.
  pub write : Listener Addr → ℕ → List ℕ → Case → Option ((Addr × List ℕ) ⊎ Error)
  write l id p c = elim (get ℕ_discrete id l.store) [
    | none ↦ none
    | some conn ↦ elim c [
      | by_deadline ↦ some (inr deadline_exceeded)
      | by_done ↦ if conn.done then some (inr closed) else none
      | by_default ↦ if conn.done then none else some (inl (conn.write_addr, p))
      | by_queue ↦ none
      | by_read_done ↦ none
    ]
  ]

module _ {Addr : Type 0} (dec : Discrete Addr) where
  -- The case of a packet for a connection that is known.
  unfoldable pub deliver : Listener Addr → ℕ → List ℕ → Listener Addr × Option Error
  deliver l id packet = elim (get ℕ_discrete id l.store) [
    | none ↦ (l, none)
    | some conn ↦
        if ltb (length conn.reads) l.read_buffer_size
        then (
          record l {
            store = put ℕ_discrete id (record conn { reads = conn.reads ++ packet ∷ [] }) l.store;
          },
          none,
        )
        else (l, some read_buffer_exceeded)
  ]

  -- The case of a new address.
  unfoldable pub connect : Listener Addr → Addr → List ℕ → Listener Addr × Option Error
  connect l addr packet =
      if l.done
      then (l, some closed_listener)
      else if ltb (length l.accept_queue) l.conn_backlog
      then (
        record l {
          store =
              put ℕ_discrete l.next_conn
                (record { reads = packet ∷ []; write_addr = addr; done = false }) l.store;
          next_conn = suc l.next_conn;
          accept_queue = l.accept_queue ++ l.next_conn ∷ [];
          conns = put dec addr l.next_conn l.conns;
        },
        none,
      )
      else (l, some listen_queue_exceeded)

  -- `dispatch`, if no call runs between its parts; Lock has the parts, and what calls between them do.
  unfoldable pub dispatch : Listener Addr → Addr → List ℕ → Listener Addr × Option Error
  unfolding deliver connect
  dispatch l addr packet = elim (get dec addr l.conns) [
    | some id ↦ deliver l id packet
    | none ↦ connect l addr packet
  ]

  -- `Conn.Close`, with the `release` that `dispatch` gave the connection.
  pub close_conn : Listener Addr → ℕ → Listener Addr
  close_conn l id = elim (get ℕ_discrete id l.store) [
    | none ↦ l
    | some conn ↦
        if conn.done
        then l
        else try_close_conn (record l {
          store = put ℕ_discrete id (record conn { done = true }) l.store;
          conns = delete dec conn.write_addr l.conns;
        })
  ]
