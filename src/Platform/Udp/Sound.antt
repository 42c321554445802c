-- ===== src/Platform/Udp/Sound.antt =====
-- The invariant of the listener of internal/platform/udp: table, store, queues and socket agree.
use native.Mathlib.Decide.{ℕ_discrete}
use star.Prelude.{
  ℕ, ◌≤◌, ◌<◌, ◌≡◌, refl, sym, ◌≢◌, inl, inr, true, false, ◌&&◌, none, some, List, [], ◌∷◌, ◌++◌,
  length, length-append, ltb, arith, Option-cases, Bool-cases,
}
use star.Prelude.Dict.{get, put, delete, get-put, get-delete}
use star.Platform.Udp.{
  Conn, Listener, is_empty, try_close_conn, close, deliver, connect, dispatch, close_conn, listen,
}

module _ {Addr : Type 0} (dec : Discrete Addr) where
  -- The table sends each address to an open connection of this address, every open connection is in
  -- the table, and no buffer or queue is overfull.
  pub record IsLinked (l : Listener Addr) : Type 0 where
    pub known :
        (addr : Addr) (id : ℕ) → get dec addr l.conns ≡ some id → get ℕ_discrete id l.store ≢ none
    pub routed :
        (addr : Addr) (id : ℕ) (conn : Conn Addr)
        → get dec addr l.conns ≡ some id
        → get ℕ_discrete id l.store ≡ some conn
        → (conn.write_addr ≡ addr) × (conn.done ≡ false)
    pub listed :
        (id : ℕ) (conn : Conn Addr)
        → get ℕ_discrete id l.store ≡ some conn
        → conn.done ≡ false
        → get dec conn.write_addr l.conns ≡ some id
    pub numbered :
        (id : ℕ) (conn : Conn Addr) → get ℕ_discrete id l.store ≡ some conn → id < l.next_conn
    pub buffered :
        (id : ℕ) (conn : Conn Addr)
        → get ℕ_discrete id l.store ≡ some conn
        → length conn.reads ≤ l.read_buffer_size
    pub queued : length l.accept_queue ≤ l.conn_backlog
    pub room : 0 < l.read_buffer_size

  -- Also, the socket is closed as soon as the listener is closed and no connection is left, and not
  -- before.
  pub record IsSound (l : Listener Addr) : Type 0 where
    pub linked : IsLinked l
    pub socket : l.socket_closed ≡ (l.done && is_empty l.conns)

  pub listen-IsSound :
      (conn_backlog read_buffer_size : ℕ) → IsSound (listen Addr conn_backlog read_buffer_size)
  unfolding listen get is_empty
  listen-IsSound conn_backlog read_buffer_size = record {
    linked = record {
      known = λ addr id e. absurd (cc);
      routed = λ addr id conn e. absurd (cc);
      listed = λ id conn e. absurd (cc);
      numbered = λ id conn e. absurd (cc);
      buffered = λ id conn e. absurd (cc);
      queued = ground arith;
      room = ground arith;
    };
    socket = refl;
  }

  deliver-IsSound :
      (l : Listener Addr) (addr : Addr) (id : ℕ) (packet : List ℕ)
      → get dec addr l.conns ≡ some id
      → IsSound l
      → IsSound (deliver dec l id packet).0
  unfolding deliver
  deliver-IsSound l addr id packet e s = elim (Option-cases (get ℕ_discrete id l.store)) [
    | inl bad ↦ absurd (s.linked.known addr id e bad)
    | inr (conn, good) ↦ elim (Bool-cases (ltb (length conn.reads) l.read_buffer_size)) [
      | inr full ↦ simp (deliver, good, full) s
      | inl free ↦
          let after = record conn { reads = conn.reads ++ packet ∷ [] } in
          let at = λ (i : ℕ). get-put ℕ_discrete id i after l.store in
          simp (deliver, good, free)
            (record {
              linked = record {
                known = λ a i h. ground (arith, s.linked.known a i, at i);
                routed = λ a i c h g.
                    ground (arith, s.linked.routed a i conn, s.linked.routed a i c, at i, good);
                listed = λ i c g o.
                    ground (arith, s.linked.listed i conn, s.linked.listed i c, at i, good);
                numbered = λ i c g.
                    ground (arith, s.linked.numbered i conn, s.linked.numbered i c, at i, good);
                buffered = λ i c g. ground (
                  arith,
                  s.linked.buffered i conn,
                  s.linked.buffered i c,
                  at i,
                  good,
                  length-append conn.reads (packet ∷ []),
                );
                queued = s.linked.queued;
                room = s.linked.room;
              };
              socket = s.socket;
            })
    ]
  ]

  put-is_empty :
      (addr : Addr) (id : ℕ) (conns : List (Addr × ℕ)) → is_empty (put dec addr id conns) ≡ false
  unfolding put is_empty
  put-is_empty addr id [] = refl
  put-is_empty addr id ((a, i) ∷ conns) = ground arith

  pub next_conn_free : (l : Listener Addr) → IsLinked l → get ℕ_discrete l.next_conn l.store ≡ none
  next_conn_free l s = elim (Option-cases (get ℕ_discrete l.next_conn l.store)) [
    | inl free ↦ free
    | inr (conn, used) ↦ absurd (ground (arith, s.numbered l.next_conn conn))
  ]

  connect-IsSound :
      (l : Listener Addr) (addr : Addr) (packet : List ℕ)
      → get dec addr l.conns ≡ none
      → IsSound l
      → IsSound (connect dec l addr packet).0
  unfolding connect
  connect-IsSound l addr packet e s = elim (Bool-cases l.done) [
    | inl shut ↦ simp (connect, shut) s
    | inr runs ↦ elim (Bool-cases (ltb (length l.accept_queue) l.conn_backlog)) [
      | inr full ↦ simp (connect, runs, full) s
      | inl free ↦
          let new : Conn Addr = record { reads = packet ∷ []; write_addr = addr; done = false } in
          let at = λ (i : ℕ). get-put ℕ_discrete l.next_conn i new l.store in
          let to = λ (a : Addr). get-put dec addr a l.next_conn l.conns in
          let free_id = next_conn_free l s.linked in
          simp (connect, runs, free)
            (record {
              linked = record {
                known = λ a i h. ground (arith, s.linked.known a i, at i, to a);
                routed = λ a i c h g. ground (
                  arith,
                  s.linked.routed a i c,
                  s.linked.known a i,
                  s.linked.numbered i c,
                  at i,
                  to a,
                  free_id,
                );
                listed = λ i c g o. ground (arith, s.linked.listed i c, at i, to c.write_addr);
                numbered = λ i c g. ground (arith, s.linked.numbered i c, at i);
                buffered = λ i c g. ground (arith, s.linked.buffered i c, at i, s.linked.room);
                queued =
                    ground
                      (arith, s.linked.queued, length-append l.accept_queue (l.next_conn ∷ []));
                room = s.linked.room;
              };
              socket = ground (arith, s.socket, put-is_empty addr l.next_conn l.conns);
            })
    ]
  ]

  pub dispatch-IsSound :
      (l : Listener Addr) (addr : Addr) (packet : List ℕ)
      → IsSound l
      → IsSound (dispatch dec l addr packet).0
  unfolding dispatch
  dispatch-IsSound l addr packet s = elim (Option-cases (get dec addr l.conns)) [
    | inl new ↦ rw (dispatch, new) (connect-IsSound l addr packet new s)
    | inr (id, found) ↦ rw (dispatch, found) (deliver-IsSound l addr id packet found s)
  ]

  try_close_conn-IsSound :
      (l : Listener Addr)
      → IsLinked l
      → (l.socket_closed ≡ true → (l.done && is_empty l.conns) ≡ true)
      → IsSound (try_close_conn l)
  unfolding try_close_conn
  try_close_conn-IsSound l s h = elim (Bool-cases (l.done && is_empty l.conns)) [
    | inl last ↦
        simp (try_close_conn, last)
          (record {
            linked = record {
              known = s.known;
              routed = s.routed;
              listed = s.listed;
              numbered = s.numbered;
              buffered = s.buffered;
              queued = s.queued;
              room = s.room;
            };
            socket = sym last;
          })
    | inr others ↦ simp (try_close_conn, others) (record { linked = s; socket = ground arith })
  ]

  pub close-IsSound : (l : Listener Addr) → IsSound l → IsSound (close l)
  unfolding close
  close-IsSound l s = elim (Bool-cases l.done) [
    | inl shut ↦ simp (close, shut) s
    | inr runs ↦
        let s' = s.linked in
        simp (close, runs)
          (try_close_conn-IsSound (record l { done = true })
            (record {
              known = s'.known;
              routed = s'.routed;
              listed = s'.listed;
              numbered = s'.numbered;
              buffered = s'.buffered;
              queued = s'.queued;
              room = s'.room;
            })
            (λ e. ground (arith, s.socket)))
  ]

  delete-is_empty :
      (addr : Addr) (conns : List (Addr × ℕ))
      → is_empty conns ≡ true
      → is_empty (delete dec addr conns) ≡ true
  unfolding delete is_empty
  delete-is_empty addr [] h = refl
  delete-is_empty addr (c ∷ conns) h = absurd (cc)

  pub close_conn-IsSound : (l : Listener Addr) (id : ℕ) → IsSound l → IsSound (close_conn dec l id)
  unfolding close_conn
  close_conn-IsSound l id s = elim (Option-cases (get ℕ_discrete id l.store)) [
    | inl bad ↦ simp (close_conn, bad) s
    | inr (conn, good) ↦ elim (Bool-cases conn.done) [
      | inl shut ↦ simp (close_conn, good, shut) s
      | inr runs ↦
          let old = s.linked in
          let at = λ (i : ℕ). get-put ℕ_discrete id i (record conn { done = true }) l.store in
          let to = λ (a : Addr). get-delete dec conn.write_addr a l.conns in
          let own = old.listed id conn good runs in
          simp (close_conn, good, runs)
            (try_close_conn-IsSound
              (record l {
                store = put ℕ_discrete id (record conn { done = true }) l.store;
                conns = delete dec conn.write_addr l.conns;
              })
              (record {
                known = λ a i h. ground (arith, old.known a i, at i, to a);
                routed = λ a i c h g.
                    ground (arith, old.routed a i conn, old.routed a i c, at i, to a, good);
                listed = λ i c g o. ground (arith, old.listed i c, at i, to c.write_addr, own);
                numbered =
                    λ i c g. ground (arith, old.numbered i conn, old.numbered i c, at i, good);
                buffered =
                    λ i c g. ground (arith, old.buffered i conn, old.buffered i c, at i, good);
                queued = old.queued;
                room = old.room;
              })
              (λ e. ground (arith, s.socket, delete-is_empty conn.write_addr l.conns)))
    ]
  ]
