-- ===== src/Registar/P2p/Connect/Laws.antt =====
-- What `Connect` of internal/registar/p2p/connector.go returns.
use star.Prelude.{
  ℕ, zero, suc, ◌≡◌, refl, ◌∙◌, true, inl, inr, ◌⊎◌, Option, none, some, Option-cases, List, ◌∷◌,
  replicate, arith,
}
use star.Registar.P2p.Errors.{Error, wrapped}
use star.Registar.P2p.Connect.{
  Main, selecting, ended, taken, Connect, start, Event, returns, cancels, sees_done, ctx_done,
  leave, step, run, value, result, connect,
}
use star.Registar.P2p.Connect.Steps.{HandsOver, Fails, IsCancelled, returns_main}
use star.Registar.P2p.Connect.Runs.{run_taken, run_first, run_cancelled, LeftDone, run-LeftDone}

-- Why `Connect` returns what it returns.
abbrev pub Explains : Option ℕ → Option Error → List Event → Type 0
Explains (some conn) none es = HandsOver conn es
Explains (some conn) (some e) es = ⊥
Explains none (some e) es = Fails e es
Explains none none es = IsCancelled es

start-LeftDone :
    {Addr : Type 0} (dec : Discrete Addr) (public_addr private_addr : Addr)
    → LeftDone (start dec public_addr private_addr)
unfolding start
start-LeftDone dec public_addr private_addr h = absurd (ground (arith, h))

value_lem :
    (m : Main) (c : Connect) (es : List Event) (conn : Option ℕ) (err : Option Error)
    → c.main ≡ m
    → LeftDone c
    → ((x : ℕ) → c.main ≡ taken x → HandsOver x es)
    → ((e : Error) → c.first ≡ some e → Fails e es)
    → (c.cancelled ≡ true → IsCancelled es)
    → value m c.first ≡ some (conn, err)
    → Explains conn err es
unfolding value ctx_done
value_lem selecting c es conn err q l t f d h = absurd (ground (arith, h))
value_lem (taken x) c es conn err q l t f d h = elim (Option-cases c.first) [
  | inl z ↦
      let pc : conn ≡ some x = ground (arith, h, z) in
      let pe : err ≡ none = ground (arith, h, z) in rw (pc, pe) (t x q)
  | inr (e, z) ↦
      let pc : conn ≡ none = ground (arith, h, z) in
      let pe : err ≡ some e = ground (arith, h, z) in rw (pc, pe) (f e z)
]
value_lem ended c es conn err q l t f d h =
    let pc : conn ≡ none = ground (arith, h) in
    elim (Option-cases c.first) [
      | inl z ↦
          let pe : err ≡ none = ground (arith, h, z) in rw (pc, pe) (d (ground (arith, l q, z)))
      | inr (e, z) ↦ let pe : err ≡ some e = ground (arith, h, z) in rw (pc, pe) (f e z)
    ]

abbrev pub FailsToListen : Option Error → Option ℕ → Option Error → Type 0
FailsToListen listened conn err =
    (e : Error) × (listened ≡ some e) × (conn ≡ none) × (err ≡ some (wrapped e))

one_less : (c : Connect) (n : ℕ) → c.running ≡ suc n → (step c (returns none)).running ≡ n
unfolding step
one_less c n r = ground (arith, r)

still_none : (c : Connect) → c.first ≡ none → (step c (returns none)).first ≡ none
unfolding step
still_none c f = ground (arith, f)

-- Loops that return nil.
all_return :
    (n : ℕ) (c : Connect)
    → c.running ≡ n
    → c.main ≡ ended
    → c.first ≡ none
    → result (run c (replicate n (returns none))) ≡ some (none, none)
unfolding run result value
all_return zero c r m f = ground (arith, r, m, f)
all_return (suc n) c r m f =
    let c' = step c (returns none) in
    ground (arith, all_return n c' (one_less c n r) (returns_main c none ∙ m) (still_none c f))

module _ {Addr : Type 0} (dec : Discrete Addr) (public_addr private_addr : Addr) where
  abbrev pub after : List Event → Connect
  after es = run (start dec public_addr private_addr) es

  from_start_taken :
      (es : List Event) (x : ℕ)
      → ((start dec public_addr private_addr).main ≡ taken x) ⊎ HandsOver x es
      → HandsOver x es
  unfolding start
  from_start_taken es x (inl h) = absurd (ground (arith, h))
  from_start_taken es x (inr h) = h

  from_start_first :
      (es : List Event) (e : Error)
      → ((start dec public_addr private_addr).first ≡ some e) ⊎ Fails e es
      → Fails e es
  unfolding start
  from_start_first es e (inl h) = absurd (ground (arith, h))
  from_start_first es e (inr h) = h

  from_start_cancelled :
      (es : List Event)
      → ((start dec public_addr private_addr).cancelled ≡ true) ⊎ IsCancelled es
      → IsCancelled es
  unfolding start
  from_start_cancelled es (inl h) = absurd (ground (arith, h))
  from_start_cancelled es (inr h) = h

  value_of :
      (c : Connect) (conn : Option ℕ) (err : Option Error)
      → result c ≡ some (conn, err)
      → value c.main c.first ≡ some (conn, err)
  unfolding result
  value_of c conn err h = ground (arith, h)

  result-run :
      (es : List Event) (conn : Option ℕ) (err : Option Error)
      → result (after es) ≡ some (conn, err)
      → Explains conn err es
  unfolding result
  result-run es conn err h =
      let c = after es in
      value_lem c.main c es conn err refl
        (run-LeftDone (start dec public_addr private_addr) es
          (start-LeftDone dec public_addr private_addr))
        (λ x q. from_start_taken es x (run_taken (start dec public_addr private_addr) es x q))
        (λ e q. from_start_first es e (run_first (start dec public_addr private_addr) es e q))
        (λ q. from_start_cancelled es (run_cancelled (start dec public_addr private_addr) es q))
        (value_of c conn err h)

  -- `Connect` returns a connection only if a loop handed it over, and then no error. It returns an error
  -- only if it could not listen or a loop failed with it, and neither connection nor error only if the
  -- caller's context was cancelled.
  pub connect_lem :
      (listened : Option Error) (es : List Event) (conn : Option ℕ) (err : Option Error)
      → connect dec public_addr private_addr listened es ≡ some (conn, err)
      → FailsToListen listened conn err ⊎ Explains conn err es
  unfolding connect
  connect_lem (some e) es conn err h = inl (e, refl, ground (arith, h), ground (arith, h))
  connect_lem none es conn err h = inr (result-run es conn err h)

  -- If the caller cancels before a connection is handed over, and its loops then return nil, as they
  -- do for a cancelled context, `Connect` returns neither a connection nor an error.
  result-cancelled :
      result (
        after (
          cancels
          ∷ sees_done
          ∷ replicate (start dec public_addr private_addr).running (returns none)))
      ≡ some (none, none)
  unfolding run step start ctx_done leave
  result-cancelled =
      let s = start dec public_addr private_addr in
      all_return s.running (step (step s cancels) sees_done) refl refl refl
