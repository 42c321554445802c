-- ===== src/Registar/P2p/Connect/Runs.antt =====
-- Runs of `Connect` of internal/registar/p2p/connector.go: where the parts of the state come from.
use star.Prelude.{
  ℕ, ◌≡◌, refl, sym, ◌∙◌, true, Bool-cases, inl, inr, ◌⊎◌, none, some, Option-cases, List, [], ◌∷◌,
  arith, ◌==◌,
}
use star.Registar.P2p.Errors.{Error}
use star.Registar.P2p.Connect.{
  Main, selecting, ended, taken, Connect, Event, hands_over, returns, cancels, sees_done, ctx_done,
  take, step, run,
}
use star.Registar.P2p.Connect.Steps.{
  HandsOver, Fails, IsCancelled, take_first, take_cancelled, leave_first, leave_cancelled,
  taken_step, returns_main, done_main, step_first, same_first, done_first, same_cancelled,
  done_cancelled, returns_cancelled,
}

pub run_taken :
    (c : Connect) (es : List Event) (conn : ℕ)
    → (run c es).main ≡ taken conn
    → (c.main ≡ taken conn) ⊎ HandsOver conn es
unfolding run
run_taken c [] conn h = inl h
run_taken c (hands_over other ∷ es) conn h =
    elim (run_taken (step c (hands_over other)) es conn h) [
      | inr later ↦ inr (inr later)
      | inl now ↦ elim (taken_step c other conn now) [
        | inl before ↦ inl before
        | inr here ↦ inr (inl here)
      ]
    ]
run_taken c (returns e ∷ es) conn h = elim (run_taken (step c (returns e)) es conn h) [
  | inr later ↦ inr later
  | inl now ↦ inl (sym (returns_main c e) ∙ now)
]
run_taken c (cancels ∷ es) conn h = run_taken (step c cancels) es conn h
run_taken c (sees_done ∷ es) conn h = elim (run_taken (step c sees_done) es conn h) [
  | inr later ↦ inr later
  | inl now ↦ inl (done_main c conn now)
]

pub run_first :
    (c : Connect) (es : List Event) (e : Error)
    → (run c es).first ≡ some e
    → (c.first ≡ some e) ⊎ Fails e es
unfolding run
run_first c [] e h = inl h
run_first c (hands_over other ∷ es) e h = elim (run_first (step c (hands_over other)) es e h) [
  | inr later ↦ inr later
  | inl now ↦ inl (sym (same_first c other) ∙ now)
]
run_first c (returns none ∷ es) e h = elim (run_first (step c (returns none)) es e h) [
  | inr later ↦ inr later
  | inl now ↦ elim (step_first c e none now) [
    | inl before ↦ inl before
    | inr wrong ↦ absurd (ground (arith, wrong))
  ]
]
run_first c (returns (some x) ∷ es) e h = elim (run_first (step c (returns (some x))) es e h) [
  | inr later ↦ inr (inr later)
  | inl now ↦ elim (step_first c e (some x) now) [
    | inl before ↦ inl before
    | inr same ↦ inr (inl (ground (arith, same)))
  ]
]
run_first c (cancels ∷ es) e h = run_first (step c cancels) es e h
run_first c (sees_done ∷ es) e h = elim (run_first (step c sees_done) es e h) [
  | inr later ↦ inr later
  | inl now ↦ inl (sym (done_first c) ∙ now)
]

pub run_cancelled :
    (c : Connect) (es : List Event)
    → (run c es).cancelled ≡ true
    → (c.cancelled ≡ true) ⊎ IsCancelled es
unfolding run
run_cancelled c [] h = inl h
run_cancelled c (hands_over other ∷ es) h = elim (run_cancelled (step c (hands_over other)) es h) [
  | inr later ↦ inr later
  | inl now ↦ inl (sym (same_cancelled c other) ∙ now)
]
run_cancelled c (returns x ∷ es) h = elim (run_cancelled (step c (returns x)) es h) [
  | inr later ↦ inr later
  | inl now ↦ inl (sym (returns_cancelled c x) ∙ now)
]
run_cancelled c (cancels ∷ es) h = inr tt
run_cancelled c (sees_done ∷ es) h = elim (run_cancelled (step c sees_done) es h) [
  | inr later ↦ inr later
  | inl now ↦ inl (sym (done_cancelled c) ∙ now)
]

-- `Connect` leaves its select without a connection only when the context is done.
abbrev pub LeftDone : Connect → Type 0
LeftDone c = c.main ≡ ended → ctx_done c ≡ true

take_ended :
    (m : Main) (c : Connect) (conn : ℕ) → c.main ≡ m → (take m c conn).main ≡ ended → c.main ≡ ended
unfolding take
take_ended selecting c conn q h = absurd (ground (arith, h))
take_ended ended c conn q h = h
take_ended (taken x) c conn q h = h

step-LeftDone : (c : Connect) (e : Event) → LeftDone c → LeftDone (step c e)
unfolding step ctx_done
step-LeftDone c (hands_over conn) l h = elim (Bool-cases (c.running == 0)) [
  | inl q ↦ ground (arith, l (ground (arith, h)))
  | inr q ↦
      let before = take_ended c.main c conn refl (ground (arith, h)) in
      ground (arith, l before, take_first c.main c conn, take_cancelled c.main c conn)
]
step-LeftDone c (returns x) l h =
    let before : c.main ≡ ended = sym (returns_main c x) ∙ h in
    elim (Option-cases c.first) [
      | inl q ↦ ground (arith, l before)
      | inr (y, q) ↦ ground (arith, l before)
    ]
step-LeftDone c cancels l h = ground arith
step-LeftDone c sees_done l h = elim (Bool-cases (ctx_done c)) [
  | inl q ↦ ground (arith, q, leave_first c.main c, leave_cancelled c.main c)
  | inr q ↦ ground (arith, q, l, h)
]

pub run-LeftDone : (c : Connect) (es : List Event) → LeftDone c → LeftDone (run c es)
unfolding run
run-LeftDone c [] l = l
run-LeftDone c (e ∷ es) l = run-LeftDone (step c e) es (step-LeftDone c e l)
