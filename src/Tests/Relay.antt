-- ===== src/Tests/Relay.antt =====
-- The route table of internal/relay/relay.go at concrete values.
use native.Mathlib.Decide.{ℕ_discrete}
use star.Prelude.{ℕ, ◌≡◌, refl, inl, some, List, [], ◌∷◌, arith}
use star.Prelude.Dict.{get}
use star.Relay.Routes.{Routes, route, add_route}
use star.Relay.Packets.{
  Packet, Serving, Event, sees_open, reads, hands_over, takes, start, run, step, read_step,
}
use star.Relay.Packets.Laws.{IsBalanced, start-IsBalanced, run-IsBalanced}
use star.Relay.Routes.Laws.{IsSymmetric, add_route-IsSymmetric, route-add_route}

abbrev none_yet : Routes ℕ
none_yet = []

none_yet-IsSymmetric : IsSymmetric ℕ_discrete none_yet
unfolding route get
none_yet-IsSymmetric x y e = absurd (ground arith)

abbrev one_pair : Routes ℕ
one_pair = add_route ℕ_discrete none_yet 1 2

one_pair-IsSymmetric : IsSymmetric ℕ_discrete one_pair
unfolding route get
one_pair-IsSymmetric =
    add_route-IsSymmetric ℕ_discrete none_yet 1 2 none_yet-IsSymmetric (inl refl) (inl refl)

there : route ℕ_discrete one_pair 1 ≡ some 2
there = rw (route-add_route ℕ_discrete none_yet 1 2 1) (ground arith)

back : route ℕ_discrete one_pair 2 ≡ some 1
back = rw (route-add_route ℕ_discrete none_yet 1 2 2) (ground arith)

abbrev three_bytes : Packet ℕ
three_bytes = record { bytes = 1 ∷ 2 ∷ 3 ∷ []; addr = 1 }

-- A packet is read, queued and taken by a worker.
abbrev passage : List (Event ℕ)
passage = sees_open ∷ reads three_bytes ∷ hands_over ∷ takes ∷ []

abbrev before : Serving ℕ
before = start ((1, 2) ∷ (2, 1) ∷ []) 2

passed : (t : Serving ℕ) × (run ℕ_discrete before passage ≡ some t)
unfolding run step read_step
passed = (_, refl)

run-IsBalanced_example : IsBalanced passed.0
run-IsBalanced_example =
    run-IsBalanced ℕ_discrete before passed.0 passage passed.1
      (start-IsBalanced ℕ_discrete ((1, 2) ∷ (2, 1) ∷ []) 2)
