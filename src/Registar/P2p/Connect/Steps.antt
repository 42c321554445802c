-- ===== src/Registar/P2p/Connect/Steps.antt =====
-- One step of `Connect` of internal/registar/p2p/connector.go.
use star.Prelude.{
  ℕ, ◌≡◌, refl, Bool-cases, inl, inr, ◌⊎◌, Option, none, some, Option-cases, List, [], ◌∷◌, arith,
  ◌==◌,
}
use star.Registar.P2p.Errors.{Error}
use star.Registar.P2p.Connect.{
  Main, selecting, ended, taken, Connect, Event, hands_over, returns, cancels, sees_done, ctx_done,
  take, leave, step,
}

-- Whether a loop handed this connection over, or returned this error.
abbrev pub HandsOver : ℕ → List Event → Type 0
HandsOver conn [] = ⊥
HandsOver conn (hands_over other ∷ es) = (other ≡ conn) ⊎ HandsOver conn es
HandsOver conn (returns e ∷ es) = HandsOver conn es
HandsOver conn (cancels ∷ es) = HandsOver conn es
HandsOver conn (sees_done ∷ es) = HandsOver conn es

abbrev pub Fails : Error → List Event → Type 0
Fails e [] = ⊥
Fails e (hands_over other ∷ es) = Fails e es
Fails e (returns none ∷ es) = Fails e es
Fails e (returns (some x) ∷ es) = (x ≡ e) ⊎ Fails e es
Fails e (cancels ∷ es) = Fails e es
Fails e (sees_done ∷ es) = Fails e es

abbrev pub IsCancelled : List Event → Type 0
IsCancelled [] = ⊥
IsCancelled (hands_over other ∷ es) = IsCancelled es
IsCancelled (returns e ∷ es) = IsCancelled es
IsCancelled (cancels ∷ es) = Unit
IsCancelled (sees_done ∷ es) = IsCancelled es

-- Where the parts of the state come from, a step at a time.
take_main :
    (m : Main) (c : Connect) (other conn : ℕ)
    → c.main ≡ m
    → (take m c other).main ≡ taken conn
    → (c.main ≡ taken conn) ⊎ (other ≡ conn)
unfolding take
take_main selecting c other conn q h = inr (ground (arith, h))
take_main ended c other conn q h = inl h
take_main (taken x) c other conn q h = inl h

leave_main :
    (m : Main) (c : Connect) (conn : ℕ) → (leave m c).main ≡ taken conn → c.main ≡ taken conn
unfolding leave
leave_main selecting c conn h = absurd (ground (arith, h))
leave_main ended c conn h = h
leave_main (taken x) c conn h = h

pub take_first : (m : Main) (c : Connect) (conn : ℕ) → (take m c conn).first ≡ c.first
unfolding take
take_first selecting c conn = refl
take_first ended c conn = refl
take_first (taken x) c conn = refl

pub take_cancelled : (m : Main) (c : Connect) (conn : ℕ) → (take m c conn).cancelled ≡ c.cancelled
unfolding take
take_cancelled selecting c conn = refl
take_cancelled ended c conn = refl
take_cancelled (taken x) c conn = refl

pub leave_first : (m : Main) (c : Connect) → (leave m c).first ≡ c.first
unfolding leave
leave_first selecting c = refl
leave_first ended c = refl
leave_first (taken x) c = refl

pub leave_cancelled : (m : Main) (c : Connect) → (leave m c).cancelled ≡ c.cancelled
unfolding leave
leave_cancelled selecting c = refl
leave_cancelled ended c = refl
leave_cancelled (taken x) c = refl

module _ (c : Connect) where
  pub taken_step :
      (other conn : ℕ)
      → (step c (hands_over other)).main ≡ taken conn
      → (c.main ≡ taken conn) ⊎ (other ≡ conn)
  unfolding step
  taken_step other conn h = elim (Bool-cases (c.running == 0)) [
    | inl q ↦ inl (ground (arith, h))
    | inr q ↦ take_main c.main c other conn refl (ground (arith, h))
  ]

  pub returns_main : (e : Option Error) → (step c (returns e)).main ≡ c.main
  unfolding step
  returns_main e = ground arith

  pub done_main : (conn : ℕ) → (step c sees_done).main ≡ taken conn → c.main ≡ taken conn
  unfolding step
  done_main conn h = elim (Bool-cases (ctx_done c)) [
    | inl q ↦ leave_main c.main c conn (ground (arith, h))
    | inr q ↦ ground (arith, h)
  ]

  pub step_first :
      (e : Error) (x : Option Error)
      → (step c (returns x)).first ≡ some e
      → (c.first ≡ some e) ⊎ (x ≡ some e)
  unfolding step
  step_first e x h = elim (Option-cases c.first) [
    | inl q ↦ elim (Bool-cases (c.running == 0)) [
      | inl z ↦ inl (ground (arith, h))
      | inr z ↦ inr (ground (arith, h))
    ]
    | inr (y, q) ↦ inl (ground (arith, h))
  ]

  pub same_first : (conn : ℕ) → (step c (hands_over conn)).first ≡ c.first
  unfolding step
  same_first conn = elim (Bool-cases (c.running == 0)) [
    | inl q ↦ ground arith
    | inr q ↦ ground (arith, take_first c.main c conn)
  ]

  pub done_first : (step c sees_done).first ≡ c.first
  unfolding step
  done_first = elim (Bool-cases (ctx_done c)) [
    | inl q ↦ ground (arith, leave_first c.main c)
    | inr q ↦ ground arith
  ]

  pub same_cancelled : (conn : ℕ) → (step c (hands_over conn)).cancelled ≡ c.cancelled
  unfolding step
  same_cancelled conn = ground (arith, take_cancelled c.main c conn)

  pub done_cancelled : (step c sees_done).cancelled ≡ c.cancelled
  unfolding step
  done_cancelled = ground (arith, leave_cancelled c.main c)

  pub returns_cancelled : (x : Option Error) → (step c (returns x)).cancelled ≡ c.cancelled
  unfolding step
  returns_cancelled x = ground arith
