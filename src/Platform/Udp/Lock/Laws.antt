-- ===== src/Platform/Udp/Lock/Laws.antt =====
-- When `Close` of internal/platform/udp/listen.go returns, and when it never does.
use star.Prelude.{
  ℕ, ◌≡◌, refl, inl, inr, Bool, true, false, List, [], ◌∷◌, arith, Option-cases, ap, ◌∙◌,
}
use star.Platform.Udp.{accept, read, is_empty}
use star.Platform.Udp.Lock.{
  Reader, reading, ended, holds, queued, Locked, Event, gets, looks_up, stores, fails, closes,
  accepts, reads, closes_conn, get_packet, fail, try_close, close, step, run,
}

-- The read loop is in `dispatch`, before it has the lock that it needs next.
abbrev pub is_dispatching : {Addr : Type 0} → Reader Addr → Bool
is_dispatching reading = false
is_dispatching ended = false
is_dispatching (holds addr packet) = true
is_dispatching (queued addr id) = true

module _ {Addr : Type 0} (dec : Discrete Addr) where
  abbrev Stuck : Locked Addr → Type 0
  Stuck s = (s.waiting ≡ true) × (is_dispatching s.reader ≡ true)

  get_packet_busy :
      (r : Reader Addr) (addr : Addr) (packet : List ℕ)
      → is_dispatching r ≡ true
      → get_packet r addr packet ≡ r
  unfolding get_packet
  get_packet_busy reading addr packet h = absurd (ground (arith, h))
  get_packet_busy ended addr packet h = refl
  get_packet_busy (holds a p) addr packet h = refl
  get_packet_busy (queued a id) addr packet h = refl

  fail_busy : (s : Locked Addr) (r : Reader Addr) → is_dispatching r ≡ true → fail s r ≡ s
  unfolding fail
  fail_busy s reading h = absurd (ground (arith, h))
  fail_busy s ended h = refl
  fail_busy s (holds a p) h = refl
  fail_busy s (queued a id) h = refl

  step-Stuck :
      (s : Locked Addr) (e : Event Addr)
      → Stuck s
      → ((step dec s e).waiting ≡ true) × ((step dec s e).reader ≡ s.reader)
  unfolding step
  step-Stuck s (gets addr packet) h = (h.0, get_packet_busy s.reader addr packet h.1)
  step-Stuck s fails h =
      let same = fail_busy s s.reader h.1 in
      (ap (λ t. t.waiting) same ∙ h.0, ap (λ t. t.reader) same)
  step-Stuck s looks_up h = (ground (arith, h.0), ground (arith, h.0))
  step-Stuck s stores h = (ground (arith, h.0), ground (arith, h.0))
  step-Stuck s closes h = (ground (arith, h.0), ground (arith, h.0))
  step-Stuck s (closes_conn id) h = (ground (arith, h.0), ground (arith, h.0))
  step-Stuck s (accepts c) h = elim (Option-cases (accept s.listener c)) [
    | inl q ↦ (ground (arith, q, h.0), ground (arith, q))
    | inr (r, q) ↦ (ground (arith, q, h.0), ground (arith, q))
  ]
  step-Stuck s (reads id n c) h = elim (Option-cases (read s.listener id n c)) [
    | inl q ↦ (ground (arith, q, h.0), ground (arith, q))
    | inr (r, q) ↦ (ground (arith, q, h.0), ground (arith, q))
  ]

  run-Stuck :
      (s : Locked Addr) (es : List (Event Addr))
      → Stuck s
      → ((run dec s es).waiting ≡ true) × ((run dec s es).reader ≡ s.reader)
  unfolding run
  run-Stuck s [] h = (h.0, refl)
  run-Stuck s (e ∷ es) h =
      let now = step-Stuck s e h in
      let later = run-Stuck (step dec s e) es (now.0, ap is_dispatching now.1 ∙ h.1) in
      (later.0, later.1 ∙ now.1)

  -- What `Close` does on an open listener without connections.
  step_closes :
      (s : Locked Addr)
      → s.waiting ≡ false
      → s.listener.done ≡ false
      → is_empty s.listener.conns ≡ true
      → s.listener.read_done ≡ false
      → ((step dec s closes).waiting ≡ true) × ((step dec s closes).reader ≡ s.reader)
  unfolding step close try_close
  step_closes s w d e r = (ground (arith, w, d, e, r), ground (arith, w, d, e, r))

  fails_waiting : (s : Locked Addr) → s.reader ≡ reading → (step dec s fails).waiting ≡ false
  unfolding step fail
  fails_waiting s h = ground (arith, h)

  -- If the read loop waits for a packet, it fails as the socket is closed, and `Close` returns.
  closes_idle :
      (s : Locked Addr)
      → s.waiting ≡ false
      → s.listener.done ≡ false
      → is_empty s.listener.conns ≡ true
      → s.listener.read_done ≡ false
      → s.reader ≡ reading
      → (run dec s (closes ∷ fails ∷ [])).waiting ≡ false
  unfolding run
  closes_idle s w d e r idle = fails_waiting (step dec s closes) ((step_closes s w d e r).1 ∙ idle)

  -- If an open listener has no connection in its table, and its read loop has a packet in `dispatch`,
  -- before a lock that it needs next, a `Close` that runs then never returns, and the read loop goes no
  -- step further, whatever happens.
  pub run-closes :
      (s : Locked Addr) (es : List (Event Addr))
      → s.waiting ≡ false
      → s.listener.done ≡ false
      → is_empty s.listener.conns ≡ true
      → s.listener.read_done ≡ false
      → is_dispatching s.reader ≡ true
      → ((run dec s (closes ∷ es)).waiting ≡ true) × ((run dec s (closes ∷ es)).reader ≡ s.reader)
  unfolding run
  run-closes s es w d e r busy =
      let now = step_closes s w d e r in
      let later = run-Stuck (step dec s closes) es (now.0, ap is_dispatching now.1 ∙ busy) in
      (later.0, later.1 ∙ now.1)
