-- ===== src/Forwarder/Host/Laws.antt =====
-- What `AcceptAndLink` of internal/forwarder/host.go does with the connections that it accepts.
use star.Prelude.{
  ℕ, ◌+◌, ◌≡◌, ◌≢◌, refl, ◌∙◌, true, List, [], ◌∷◌, ◌++◌, ◌==◌, if◌then◌else◌, arith, ap,
}
use star.Forwarder.Host.{
  LinkResult, Returned, accepting, returned_nil, accept_error, Host, new_host, Event, accepts,
  hoster_closed, accept_fails, returns, remove, has, on_accept, on_return, on_loop, step, run,
  close_returns,
}

-- How often a connection stands in a list.
pub count : ℕ → List ℕ → ℕ
count c [] = 0
count c (x ∷ xs) = (if x == c then 1 else 0) + count c xs

count-append : (c : ℕ) (xs ys : List ℕ) → count c (xs ++ ys) ≡ count c xs + count c ys
unfolding count
count-append c [] ys = omega arith
count-append c (x ∷ xs) ys = omega (arith, count-append c xs ys)

count-remove :
    (c d : ℕ) (xs : List ℕ)
    → has d xs ≡ true
    → count c (remove d xs) + (if d == c then 1 else 0) ≡ count c xs
unfolding count remove has
count-remove c d [] h = absurd (ground arith)
count-remove c d (x ∷ xs) h = ground (arith, count-remove c d xs)

-- The connections that the loop accepts before it returns.
pub accepted : Returned → List Event → List ℕ
accepted accepting [] = []
accepted returned_nil es = []
accepted accept_error es = []
accepted accepting (accepts c ∷ es) = c ∷ accepted accepting es
accepted accepting (hoster_closed ∷ es) = []
accepted accepting (accept_fails ∷ es) = []
accepted accepting (returns c result ∷ es) = accepted accepting es

accepted-returns :
    (r : Returned) (d : ℕ) (result : LinkResult) (es : List Event)
    → accepted r (returns d result ∷ es) ≡ accepted r es
unfolding accepted
accepted-returns accepting d result es = refl
accepted-returns returned_nil d result [] = refl
accepted-returns returned_nil d result (e ∷ es) = refl
accepted-returns accept_error d result [] = refl
accepted-returns accept_error d result (e ∷ es) = refl

-- A connection that is accepted is being linked or closed, as often as it was accepted.
abbrev held : ℕ → Host → ℕ
held c h = count c h.linking + count c h.closed

one : (c d : ℕ) → count c (d ∷ []) ≡ (if d == c then 1 else 0)
unfolding count
one c d = omega arith

returned_accepts : (r : Returned) (es : List Event) → r ≢ accepting → accepted r es ≡ []
unfolding accepted
returned_accepts accepting es n = absurd (n refl)
returned_accepts returned_nil [] n = refl
returned_accepts returned_nil (e ∷ es) n = refl
returned_accepts accept_error [] n = refl
returned_accepts accept_error (e ∷ es) n = refl

module _ (h : Host) (c : ℕ) (es : List Event) where
  -- An accepted connection, by whether the loop still runs.
  accepts_count :
      (d : ℕ) (r : Returned)
      → h.loop ≡ r
      → held c (on_loop r h (accepts d)) + count c (accepted (on_loop r h (accepts d)).loop es)
        ≡ held c h + count c (accepted r (accepts d ∷ es))
  unfolding on_loop on_accept accepted count
  accepts_count d accepting q =
      ground (arith, ap (λ k. accepted k es) q, count-append c h.linking (d ∷ []))
  accepts_count d returned_nil q = ground (arith, returned_accepts h.loop es)
  accepts_count d accept_error q = ground (arith, returned_accepts h.loop es)

  closed_count :
      (r : Returned)
      → h.loop ≡ r
      → held c (on_loop r h hoster_closed) + count c (accepted (on_loop r h hoster_closed).loop es)
        ≡ held c h + count c (accepted r (hoster_closed ∷ es))
  unfolding on_loop on_accept accepted count
  closed_count accepting q = ground (arith, returned_accepts returned_nil es)
  closed_count returned_nil q = ground (arith, returned_accepts h.loop es)
  closed_count accept_error q = ground (arith, returned_accepts h.loop es)

  fails_count :
      (r : Returned)
      → h.loop ≡ r
      → held c (on_loop r h accept_fails) + count c (accepted (on_loop r h accept_fails).loop es)
        ≡ held c h + count c (accepted r (accept_fails ∷ es))
  unfolding on_loop on_accept accepted count
  fails_count accepting q = ground (arith, returned_accepts accept_error es)
  fails_count returned_nil q = ground (arith, returned_accepts h.loop es)
  fails_count accept_error q = ground (arith, returned_accepts h.loop es)

step_count :
    (h : Host) (c : ℕ) (e : Event) (es : List Event)
    → held c (step h e) + count c (accepted (step h e).loop es)
      ≡ held c h + count c (accepted h.loop (e ∷ es))
unfolding step on_return
step_count h c (returns d result) es = ground (
  arith,
  accepted-returns h.loop d result es,
  count-remove c d h.linking,
  count-append c h.closed (d ∷ []),
  one c d,
)
step_count h c (accepts d) es = accepts_count h c es d h.loop refl
step_count h c hoster_closed es = closed_count h c es h.loop refl
step_count h c accept_fails es = fails_count h c es h.loop refl

run_count :
    (h : Host) (c : ℕ) (es : List Event)
    → held c (run h es) + count c (accepted (run h es).loop [])
      ≡ held c h + count c (accepted h.loop es)
unfolding run
run_count h c [] = refl
run_count h c (e ∷ es) = run_count (step h e) c es ∙ step_count h c e es

no_more : (r : Returned) → accepted r [] ≡ []
unfolding accepted
no_more accepting = refl
no_more returned_nil = refl
no_more accept_error = refl

-- Whatever is accepted and whichever links end, in any order: each connection that the loop has
-- accepted is being linked or has been closed, once for each time that it was accepted, and no other
-- is.
pub run-new_host_count :
    (c : ℕ) (es : List Event)
    → count c (run new_host es).linking + count c (run new_host es).closed
      ≡ count c (accepted accepting es)
unfolding new_host count
run-new_host_count c es = ground (arith, run_count new_host c es, no_more (run new_host es).loop)

-- When `Close` returns, each connection that the loop has accepted has been closed, once for each
-- time that it was accepted.
pub close_returns-run :
    (c : ℕ) (es : List Event)
    → close_returns (run new_host es) ≡ true
    → count c (run new_host es).closed ≡ count c (accepted accepting es)
unfolding close_returns count
close_returns-run c es h = ground (arith, run-new_host_count c es)
