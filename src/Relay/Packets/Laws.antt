-- ===== src/Relay/Packets/Laws.antt =====
-- What the counters of internal/relay/relay.go count, and that no packet vanishes unseen.
use native.Mathlib.Nat.{mod-add-mod}
use star.Prelude.{
  ℕ, zero, suc, ◌+◌, ◌-◌, ◌%◌, ◌^◌, ◌≤◌, ◌≡◌, refl, subst, ◌⊎◌, ◌≢◌, inl, inr, some, List, [], ◌∷◌,
  ◌++◌, length, length-append, take, drop, get_elem?, ◌==◌, arith, Option-cases, Bool-cases,
}
use star.Relay.Routes.{Routes, route}
use star.Relay.Packets.{
  Packet, UdpRelay, add_uint64, Write, write_failed, wrote, Written, ok, unrouted, failed,
  short_write, Reader, checking, reading, holding, Serving, Event, closes, sees_open, times_out,
  read_fails, sees_done, hands_over, gives_up, takes, reads, writes, start, write_packet, finish,
  read_step, step, run,
}

module _ {Addr : Type 0} where
  unfoldable pub size : List (Packet Addr) → ℕ
  size [] = 0
  size (p ∷ ps) = length p.bytes + size ps

  unfoldable pub sent_size : List (Addr × List ℕ) → ℕ
  sent_size [] = 0
  sent_size ((dst, bytes) ∷ sent) = length bytes + sent_size sent

  unfoldable pub held : Reader Addr → ℕ
  held (holding p) = length p.bytes
  held _ = 0

  -- The bytes that the relay has read, wherever they are now.
  pub total : Serving Addr → ℕ
  total s = held s.reader + size s.inbox + size s.writing + sent_size s.relay.sent + size s.lost

  -- The counters are the bytes read and sent, modulo 2^64, and channel and workers are not overfull.
  pub record IsBalanced (s : Serving Addr) : Type 0 where
    pub all_in : s.relay.bytes_in ≡ total s % 2 ^ 64
    pub all_out : s.relay.bytes_out ≡ sent_size s.relay.sent % 2 ^ 64
    pub inbox_fits : length s.inbox ≤ s.workers
    pub workers_fit : length s.writing ≤ s.live

  size-append : (ps qs : List (Packet Addr)) → size (ps ++ qs) ≡ size ps + size qs
  unfolding size
  size-append [] qs = omega arith
  size-append (p ∷ ps) qs = omega (arith, size-append ps qs)

  size_without :
      (ps : List (Packet Addr)) (i : ℕ) (p : Packet Addr)
      → get_elem? ps i ≡ some p
      → (size ps ≡ length p.bytes + size (take i ps ++ drop (suc i) ps))
        × (length ps ≡ suc (length (take i ps ++ drop (suc i) ps)))
  unfolding size
  size_without [] i p h = absurd (ground arith)
  size_without (q ∷ ps) zero p h = ground arith
  size_without (q ∷ ps) (suc i) p h = ground (arith, size_without ps i p h)

add_uint64-mod : (x n : ℕ) → add_uint64 (x % 2 ^ 64) n ≡ (x + n) % 2 ^ 64
unfolding add_uint64
add_uint64-mod x n = mod-add-mod x (2 ^ 64) n

module _ {Addr : Type 0} where
  read_step-IsBalanced :
      (s t : Serving Addr) (r : Reader Addr) (e : Event Addr)
      → s.reader ≡ r
      → read_step s r e ≡ some t
      → IsBalanced s
      → IsBalanced t
  unfolding read_step held size total
  read_step-IsBalanced s t checking sees_open q h b = record {
    all_in = ground (arith, b.all_in);
    all_out = ground (arith, b.all_out);
    inbox_fits = ground (arith, b.inbox_fits);
    workers_fit = ground (arith, b.workers_fit);
  }
  read_step-IsBalanced s t checking sees_done q h b = record {
    all_in = ground (arith, b.all_in);
    all_out = ground (arith, b.all_out);
    inbox_fits = ground (arith, b.inbox_fits);
    workers_fit = ground (arith, b.workers_fit);
  }
  read_step-IsBalanced s t reading (reads pkt) q h b = record {
    all_in = ground (arith, b.all_in, add_uint64-mod (total s) (length pkt.bytes));
    all_out = ground (arith, b.all_out);
    inbox_fits = ground (arith, b.inbox_fits);
    workers_fit = ground (arith, b.workers_fit);
  }
  read_step-IsBalanced s t reading times_out q h b = record {
    all_in = ground (arith, b.all_in);
    all_out = ground (arith, b.all_out);
    inbox_fits = ground (arith, b.inbox_fits);
    workers_fit = ground (arith, b.workers_fit);
  }
  read_step-IsBalanced s t reading read_fails q h b = record {
    all_in = ground (arith, b.all_in);
    all_out = ground (arith, b.all_out);
    inbox_fits = ground (arith, b.inbox_fits);
    workers_fit = ground (arith, b.workers_fit);
  }
  read_step-IsBalanced s t (holding pkt) hands_over q h b = record {
    all_in = ground (arith, b.all_in, size-append s.inbox (pkt ∷ []));
    all_out = ground (arith, b.all_out);
    inbox_fits = ground (arith, b.inbox_fits, length-append s.inbox (pkt ∷ []));
    workers_fit = ground (arith, b.workers_fit);
  }
  read_step-IsBalanced s t (holding pkt) gives_up q h b = record {
    all_in = ground (arith, b.all_in);
    all_out = ground (arith, b.all_out);
    inbox_fits = ground (arith, b.inbox_fits);
    workers_fit = ground (arith, b.workers_fit);
  }
  read_step-IsBalanced s t _ _ q h b = absurd (cc)

module _ {Addr : Type 0} (dec : Discrete Addr) where
  -- A write that sends the packet to where its sender is routed, or one that sends nothing.
  Writes : UdpRelay Addr → Packet Addr → UdpRelay Addr × Written → Type 0
  Writes r pkt x =
      ((dst : Addr) × (route dec r.routes pkt.addr ≡ some dst)
        × (x ≡ (
          record r {
            bytes_out = add_uint64 r.bytes_out (length pkt.bytes);
            sent = (dst, pkt.bytes) ∷ r.sent;
          },
          ok,
        )))
      ⊎ ((w : Written) × (w ≢ ok) × (n : ℕ) × (x ≡ (record r { dropped_packets = n }, w)))

  write_packet-Writes :
      (r : UdpRelay Addr) (pkt : Packet Addr) (outcome : Write)
      → Writes r pkt (write_packet dec r pkt outcome)
  unfolding write_packet Writes
  write_packet-Writes r pkt write_failed = elim (Option-cases (route dec r.routes pkt.addr)) [
    | inl no_route ↦ inr (unrouted, λ e. cc, add_uint64 r.dropped_packets 1, ground arith)
    | inr (dst, found) ↦ inr (failed, λ e. cc, r.dropped_packets, ground arith)
  ]
  write_packet-Writes r pkt (wrote n) = elim (Option-cases (route dec r.routes pkt.addr)) [
    | inl no_route ↦ inr (unrouted, λ e. cc, add_uint64 r.dropped_packets 1, ground arith)
    | inr (dst, found) ↦ elim (Bool-cases (n == length pkt.bytes)) [
      | inl all ↦ inl (dst, found, ground arith)
      | inr short ↦ inr (short_write, λ e. cc, r.dropped_packets, ground arith)
    ]
  ]

  lost-IsBalanced :
      (s : Serving Addr) (i k l : ℕ) (pkt : Packet Addr)
      → get_elem? s.writing i ≡ some pkt
      → length s.writing ≤ suc l
      → IsBalanced s
      → IsBalanced (record s {
        relay = record s.relay { dropped_packets = k };
        live = l;
        writing = take i s.writing ++ drop (suc i) s.writing;
        lost = pkt ∷ s.lost;
      })
  unfolding held size total sent_size
  lost-IsBalanced s i k l pkt e room b =
      let others = size_without s.writing i pkt e in
      record {
        all_in = ground (arith, b.all_in, others.0);
        all_out = b.all_out;
        inbox_fits = b.inbox_fits;
        workers_fit = omega (arith, room, others.1);
      }

  -- Whether a packet is sent or lost, it is accounted for.
  Writes-IsBalanced :
      (s : Serving Addr) (i : ℕ) (pkt : Packet Addr) (x : UdpRelay Addr × Written)
      → get_elem? s.writing i ≡ some pkt
      → Writes s.relay pkt x
      → IsBalanced s
      → IsBalanced (finish s (take i s.writing ++ drop (suc i) s.writing) pkt x)
  unfolding finish held size total sent_size Writes
  Writes-IsBalanced s i pkt x e (inl (dst, found, q)) b =
      let others = size_without s.writing i pkt e in
      rw (q) (record {
        all_in = ground (arith, b.all_in, others.0);
        all_out =
            ground (arith, b.all_out, add_uint64-mod (sent_size s.relay.sent) (length pkt.bytes));
        inbox_fits = b.inbox_fits;
        workers_fit = omega (arith, b.workers_fit, others.1);
      })
  Writes-IsBalanced s i pkt x e (inr (ok, n, k, q)) b = absurd (n refl)
  Writes-IsBalanced s i pkt x e (inr (unrouted, n, k, q)) b =
      rw (q) (lost-IsBalanced s i k s.live pkt e (omega (arith, b.workers_fit)) b)
  Writes-IsBalanced s i pkt x e (inr (failed, n, k, q)) b =
      rw (q) (lost-IsBalanced s i k (s.live - 1) pkt e (omega (arith, b.workers_fit)) b)
  Writes-IsBalanced s i pkt x e (inr (short_write, n, k, q)) b =
      rw (q) (lost-IsBalanced s i k (s.live - 1) pkt e (omega (arith, b.workers_fit)) b)

  takes-IsBalanced :
      (s t : Serving Addr) (inbox : List (Packet Addr))
      → s.inbox ≡ inbox
      → step dec s takes ≡ some t
      → IsBalanced s
      → IsBalanced t
  unfolding step held size total
  takes-IsBalanced s t [] q h b = absurd (ground arith)
  takes-IsBalanced s t (pkt ∷ rest) q h b = record {
    all_in = ground (arith, b.all_in);
    all_out = ground (arith, b.all_out);
    inbox_fits = ground (arith, b.inbox_fits);
    workers_fit = ground (arith, b.workers_fit);
  }

  pub step-IsBalanced :
      (s t : Serving Addr) (e : Event Addr) → step dec s e ≡ some t → IsBalanced s → IsBalanced t
  unfolding step total
  step-IsBalanced s t closes h b = record {
    all_in = ground (arith, b.all_in);
    all_out = ground (arith, b.all_out);
    inbox_fits = ground (arith, b.inbox_fits);
    workers_fit = ground (arith, b.workers_fit);
  }
  step-IsBalanced s t takes h b = takes-IsBalanced s t s.inbox refl h b
  step-IsBalanced s t (writes i outcome) h b = elim (Option-cases (get_elem? s.writing i)) [
    | inl bad ↦ absurd (ground arith)
    | inr (pkt, good) ↦
        let x = write_packet dec s.relay pkt outcome in
        let same = Writes-IsBalanced s i pkt x good (write_packet-Writes s.relay pkt outcome) b in
        let here : finish s (take i s.writing ++ drop (suc i) s.writing) pkt x ≡ t = ground arith in
        subst IsBalanced here same
  ]
  step-IsBalanced s t (reads pkt) h b = read_step-IsBalanced s t s.reader (reads pkt) refl h b
  step-IsBalanced s t sees_open h b = read_step-IsBalanced s t s.reader sees_open refl h b
  step-IsBalanced s t times_out h b = read_step-IsBalanced s t s.reader times_out refl h b
  step-IsBalanced s t read_fails h b = read_step-IsBalanced s t s.reader read_fails refl h b
  step-IsBalanced s t sees_done h b = read_step-IsBalanced s t s.reader sees_done refl h b
  step-IsBalanced s t hands_over h b = read_step-IsBalanced s t s.reader hands_over refl h b
  step-IsBalanced s t gives_up h b = read_step-IsBalanced s t s.reader gives_up refl h b

  -- Whatever the goroutines do in whatever order, `bytesIn` counts the bytes of the packets that are
  -- held, queued, being written, sent or lost, and `bytesOut` those sent, modulo 2^64; the channel
  -- holds no more packets than there are workers, and the workers no more than those that are left.
  pub run-IsBalanced :
      (s t : Serving Addr) (es : List (Event Addr))
      → run dec s es ≡ some t
      → IsBalanced s
      → IsBalanced t
  unfolding run
  run-IsBalanced s t [] h b = subst IsBalanced (ground arith) b
  run-IsBalanced s t (e ∷ es) h b = elim (Option-cases (step dec s e)) [
    | inl bad ↦ absurd (ground arith)
    | inr (s', good) ↦ run-IsBalanced s' t es (ground arith) (step-IsBalanced s s' e good b)
  ]

  pub start-IsBalanced : (routes : Routes Addr) (workers : ℕ) → IsBalanced (start routes workers)
  unfolding total held size sent_size
  start-IsBalanced routes workers = record {
    all_in = omega arith;
    all_out = omega arith;
    inbox_fits = omega arith;
    workers_fit = omega arith;
  }
