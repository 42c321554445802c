-- ===== src/Platform/Udp/Delivery.antt =====
-- Where the listener of internal/platform/udp puts a packet.
use native.Mathlib.Decide.{ℕ_discrete}
use mathlib.Core.List.{append-nil}
use mathlib.Core.Logic.{ite}
use star.Prelude.{
  ℕ, ◌≡◌, inl, inr, false, some, List, [], ◌∷◌, ◌++◌, length, ltb, if◌then◌else◌, arith,
  Option-cases,
}
use star.Prelude.Dict.{get, get-put}
use star.Platform.Udp.{Conn, Listener, deliver, connect, dispatch}
use star.Platform.Udp.Sound.{IsSound}

module _ {Addr : Type 0} (dec : Discrete Addr) where
  -- What a packet adds to a connection's buffer.
  pub arriving : Listener Addr → Conn Addr → Addr → List ℕ → List (List ℕ)
  arriving l conn addr packet =
      if conn.done
      then []
      else if ltb (length conn.reads) l.read_buffer_size
      then ite (dec conn.write_addr addr) (packet ∷ []) []
      else []

  -- In a sound listener, a packet comes last in the buffer of the open connection of its sender, if
  -- there is room, and changes no other connection.
  pub dispatch_lem :
      (l : Listener Addr) (addr : Addr) (packet : List ℕ) (id : ℕ) (conn : Conn Addr)
      → IsSound dec l
      → get ℕ_discrete id l.store ≡ some conn
      → get ℕ_discrete id (dispatch dec l addr packet).0.store
        ≡ some (record conn { reads = conn.reads ++ arriving l conn addr packet })
  unfolding dispatch arriving deliver connect
  dispatch_lem l addr packet id conn s e = elim (Option-cases (get dec addr l.conns)) [
    | inl new ↦
        let put_new =
          get-put ℕ_discrete l.next_conn id
            (record { reads = packet ∷ []; write_addr = addr; done = false }) l.store in
        ground (
          arith,
          new,
          put_new,
          s.linked.listed id conn e,
          s.linked.numbered id conn e,
          append-nil conn.reads,
        )
    | inr (i, found) ↦ elim (Option-cases (get ℕ_discrete i l.store)) [
      | inl bad ↦ absurd (s.linked.known addr i found bad)
      | inr (other, good) ↦
          let put_other =
            get-put ℕ_discrete i id (record other { reads = other.reads ++ packet ∷ [] }) l.store in
          ground (
            arith,
            found,
            good,
            put_other,
            s.linked.listed id conn e,
            s.linked.routed addr i other found good,
            append-nil conn.reads,
          )
    ]
  ]
