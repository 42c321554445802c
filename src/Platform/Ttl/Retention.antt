-- ===== src/Platform/Ttl/Retention.antt =====
-- What `GetOrSet` of internal/platform/ttlmap.go returns and keeps, call after call.
use mathlib.Core.Logic.{ite}
use star.Prelude.{
  ℕ, ◌+◌, ◌≤◌, ◌<◌, ◌≡◌, refl, sym, ap, ◌∙◌, subst, Option, none, some, List, [], ◌∷◌, arith, ltb,
  lt→ltb, if◌then◌else◌, Option-cases, inl, inr,
}
use star.Platform.Ttl.{Item, TtlMap, new_ttl_map, get_or_set}
use star.Platform.Ttl.Entries.{entry}
use star.Platform.Ttl.Laws.{
  IsSound, peek, live, value_or, kept, kept-IsSound, peek-kept, get_or_set_found,
  get_or_set_missing, moved-IsSound, peek-moved, add-IsSound, peek-add,
}

module _ {K V : Type 0} (dec : Discrete K) where
  pub new_ttl_map-IsSound : (ttl : ℕ) → IsSound dec (new_ttl_map {K = K} {V = V} ttl) 0
  unfolding new_ttl_map entry star.Prelude.Dict.get
  new_ttl_map-IsSound ttl = record {
    distinct = tt;
    keys = tt;
    ordered = omega arith;
    below = tt;
    leads = λ k. refl;
  }

  pub get_or_set-IsSound :
      (m : TtlMap K V) (before now : ℕ) (k : K) (v : V)
      → IsSound dec m before
      → before ≤ now
      → IsSound dec (get_or_set dec m k v now).1 now
  get_or_set-IsSound m before now k v h later =
      let s = kept-IsSound dec m before now h in
      elim (Option-cases (entry dec k (kept dec m now).list)) [
        | inl q ↦
            rw (get_or_set_missing dec m before now k v h q)
              (add-IsSound dec (kept dec m now) before now k v s later q)
        | inr ((e, it), q) ↦
            rw (get_or_set_found dec m before now k v e it h q)
              (moved-IsSound dec (kept dec m now) before now k e it s later q)
      ]

  -- A call returns the value of its key, if it has one that is not expired, and else the new one.
  -- The key then has this value, used now, and the other keys what they had and is not expired.
  pub get_or_set_lem :
      (m : TtlMap K V) (before now : ℕ) (k j : K) (v : V)
      → IsSound dec m before
      → ((get_or_set dec m k v now).0 ≡ value_or v (live m.ttl now (peek dec m k)))
        × (peek dec (get_or_set dec m k v now).1 j
            ≡ ite
                (dec k j)
                (some ((get_or_set dec m k v now).0, now))
                (live m.ttl now (peek dec m j)))
  unfolding peek
  get_or_set_lem m before now k j v h =
      let s = kept-IsSound dec m before now h in
      let here = peek-kept dec m before now k h in
      let there = peek-kept dec m before now j h in
      elim (Option-cases (entry dec k (kept dec m now).list)) [
        | inl q ↦ rw (get_or_set_missing dec m before now k v h q) (
          ground (arith, here, there, q),
          ground (arith, here, there, q, peek-add dec (kept dec m now) now k j v q),
        )
        | inr ((e, it), q) ↦ rw (get_or_set_found dec m before now k v e it h q) (
          ground (arith, here, q),
          ground (arith, there, peek-moved dec (kept dec m now) now k j e it s.distinct s.keys q),
        )
      ]

  pub get_or_set-ttl :
      (m : TtlMap K V) (now : ℕ) (k : K) (v : V) → (get_or_set dec m k v now).1.ttl ≡ m.ttl
  unfolding get_or_set star.Platform.Ttl.lookup star.Platform.Ttl.add
  get_or_set-ttl m now k v = ground arith

  -- Calls with their keys, the values that they would make, and times.
  pub run : TtlMap K V → List (K × V × ℕ) → TtlMap K V
  run m [] = m
  run m ((k, v, now) ∷ calls) = run (get_or_set dec m k v now).1 calls

  run-ttl : (m : TtlMap K V) (calls : List (K × V × ℕ)) → (run m calls).ttl ≡ m.ttl
  unfolding run
  run-ttl m [] = refl
  run-ttl m ((k, v, now) ∷ calls) =
      run-ttl (get_or_set dec m k v now).1 calls ∙ get_or_set-ttl m now k v

  abbrev pub IsInOrder : ℕ → List (K × V × ℕ) → ℕ → Type 0
  IsInOrder from [] to = from ≤ to
  IsInOrder from ((k, v, now) ∷ calls) to = (from ≤ now) × IsInOrder now calls to

  order_le : (from to : ℕ) (calls : List (K × V × ℕ)) → IsInOrder from calls to → from ≤ to
  order_le from to [] h = h
  order_le from to ((k, v, now) ∷ calls) h = omega (arith, order_le now to calls h.1)

  pub run-IsSound :
      (m : TtlMap K V) (from to : ℕ) (calls : List (K × V × ℕ))
      → IsSound dec m from
      → IsInOrder from calls to
      → (last : ℕ) × (last ≤ to) × IsSound dec (run m calls) last
  unfolding run
  run-IsSound m from to [] h o = (from, o, h)
  run-IsSound m from to ((k, v, now) ∷ calls) h o =
      run-IsSound (get_or_set dec m k v now).1 now to calls
        (get_or_set-IsSound m from now k v h o.0) o.1

  run_keeps :
      (m : TtlMap K V) (from to t s : ℕ) (k : K) (v : V) (calls : List (K × V × ℕ))
      → IsSound dec m from
      → IsInOrder from calls to
      → to < t + m.ttl
      → t ≤ from
      → t ≤ s
      → peek dec m k ≡ some (v, s)
      → (last : ℕ) × (t ≤ last) × (peek dec (run m calls) k ≡ some (v, last))
  unfolding run
  run_keeps m from to t s k v [] h o soon since le q = (s, le, q)
  run_keeps m from to t s k v ((j, w, now) ∷ calls) h o soon since le q =
      let early = order_le now to calls o.1 in
      let step = get_or_set_lem m from now j k w h in
      let m' = (get_or_set dec m j w now).1 in
      let sound = get_or_set-IsSound m from now j w h o.0 in
      let same = get_or_set-ttl m now j w in
      let alive : live m.ttl now (peek dec m k) ≡ some (v, s) = rw q (ground arith) in
      elim (dec j k) [
        | yes p ↦
            let after : peek dec m' k ≡ some (v, now) =
              ground (arith, step.0, step.1, alive, ap (λ x. peek dec m x) p) in
            run_keeps m' now to t now k v calls sound o.1 (omega (arith, same)) (omega arith)
              (omega arith) after
        | no n ↦
            run_keeps m' now to t s k v calls sound o.1 (omega (arith, same)) (omega arith) le
              (ground (arith, step.1, alive))
      ]

  -- In a sound map, a value that a call at `t` returns is returned again, whatever calls come in
  -- between, until the time to live has passed since `t`.
  pub get_or_set-run :
      (m : TtlMap K V) (before t now : ℕ) (k : K) (v w : V) (calls : List (K × V × ℕ))
      → IsSound dec m before
      → before ≤ t
      → IsInOrder t calls now
      → now < t + m.ttl
      → (get_or_set dec (run (get_or_set dec m k v t).1 calls) k w now).0
        ≡ (get_or_set dec m k v t).0
  get_or_set-run m before t now k v w calls h later o soon =
      let m' = (get_or_set dec m k v t).1 in
      let r = (get_or_set dec m k v t).0 in
      let sound = get_or_set-IsSound m before t k v h later in
      let first : peek dec m' k ≡ some (r, t) =
        ground (arith, (get_or_set_lem m before t k k v h).1) in
      let same = get_or_set-ttl m t k v in
      let kept =
        run_keeps m' t now t t k r calls sound o (omega (arith, same)) (omega arith) (omega arith)
          first in
      let all = run-IsSound m' t now calls sound o in
      let ttl = run-ttl m' calls ∙ same in
      let alive : live (run m' calls).ttl now (peek dec (run m' calls) k) ≡ some (r, kept.0) =
        rw kept.2 (ground (arith, kept.1, ttl)) in
      (get_or_set_lem (run m' calls) all.0 now k k w all.2).0 ∙ ap (value_or w) alive
