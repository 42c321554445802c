-- ===== src/Http/RateLimit/Unbounded.antt =====
-- `RateLimit` of internal/platform/httpplatform/middleware.go against a rate limit that never
-- forgets an address.
use native.Mathlib.Decide.{ℕ_discrete}
use mathlib.Core.Logic.{ite}
use star.Prelude.{
  Bool-cases, ℕ, zero, suc, ◌+◌, ◌*◌, ◌≤◌, ◌<◌, ◌≡◌, refl, sym, ap, ◌∙◌, Option, none, some, List,
  [], ◌∷◌, arith, ltb, Option-cases, inl, inr,
}
use star.Prelude.Dict.{get, put, get-put}
use star.Platform.Ttl.{new_ttl_map, get_or_set}
use star.Platform.Ttl.Entries.{entry}
use star.Platform.Ttl.Laws.{IsSound, peek, live, value_or}
use star.Platform.Ttl.Retention.{
  new_ttl_map-IsSound, get_or_set-IsSound, get_or_set_lem, get_or_set-ttl,
}
use star.Http.RateLimit.{Rate, Answer, ttl_of, admit, State, rate_limit, handle}

ttl_covers : (every burst : ℕ) → (every ≤ ttl_of every burst) × (burst * every ≤ ttl_of every burst)
unfolding ttl_of
ttl_covers every zero = grind arith
ttl_covers every (suc zero) = grind arith
ttl_covers every (suc (suc b)) = grind arith

module _ (r : Rate) (every burst : ℕ) where
  abbrev pub ttl : ℕ
  ttl = ttl_of every burst

  -- The documented refill of a limiter: it gains a token in each interval, up to the burst. After a
  -- rest of an interval and of as many as the burst it is full, and acts as a new one does.
  pub record IsRefilled : Type 1 where
    pub AsOf : r.Limiter → ℕ → Type 0
    pub first : (now : ℕ) → AsOf (admit r (r.new_limiter every burst) now).1 now
    pub again : (l : r.Limiter) (t now : ℕ) → AsOf l t → AsOf (admit r l now).1 now
    pub full :
        (l : r.Limiter) (t now : ℕ)
        → AsOf l t
        → t + every ≤ now
        → t + burst * every ≤ now
        → admit r l now ≡ admit r (r.new_limiter every burst) now

  abbrev pub or_new : Option r.Limiter → r.Limiter
  or_new none = r.new_limiter every burst
  or_new (some l) = l

  -- One limiter for each address, for ever.
  unfoldable pub handle_forever :
      {Ip : Type 0} → Discrete Ip → List (Ip × r.Limiter) → Ip → ℕ → Answer × List (Ip × r.Limiter)
  handle_forever dec table ip now =
      let (answer, used) = admit r (or_new (get dec ip table)) now in
      (answer, put dec ip used table)

  -- The answers to requests with their addresses and times.
  pub handle_all : {Ip : Type 0} → Discrete Ip → State r Ip → List (Ip × ℕ) → Option (List Answer)
  handle_all dec s [] = some []
  handle_all dec s ((ip, now) ∷ requests) = elim (handle r dec every burst s ip now) [
    | none ↦ none
    | some (answer, s') ↦ elim (handle_all dec s' requests) [
      | none ↦ none
      | some answers ↦ some (answer ∷ answers)
    ]
  ]

  unfoldable pub forever_all :
      {Ip : Type 0} → Discrete Ip → List (Ip × r.Limiter) → List (Ip × ℕ) → List Answer
  forever_all dec table [] = []
  forever_all dec table ((ip, now) ∷ requests) =
      (handle_forever dec table ip now).0
      ∷ forever_all dec (handle_forever dec table ip now).1 requests

  abbrev pub IsInTime : {Ip : Type 0} → ℕ → List (Ip × ℕ) → Type 0
  IsInTime from [] = Unit
  IsInTime from ((ip, now) ∷ requests) = (from ≤ now) × IsInTime now requests

  module _ (bucket : IsRefilled) where
    open bucket use {AsOf, first, again, full}

    -- The time to live is such a rest.
    rested_full :
        (l : r.Limiter) (t now : ℕ)
        → AsOf l t
        → t + ttl ≤ now
        → admit r l now ≡ admit r (r.new_limiter every burst) now
    rested_full l t now a h =
        let enough = ttl_covers every burst in
        full l t now a (omega (arith, enough.0)) (omega (arith, enough.1))

    -- How the map's entry of an address stands to its limiter in the table.
    data Agrees (limiters : List (ℕ × r.Limiter)) (next t : ℕ)
        : Option (ℕ × ℕ) → Option r.Limiter → Type 0 where
      unknown : Agrees limiters next t none none
      rested :
          (l : r.Limiter) (u : ℕ) → AsOf l u → u + ttl ≤ t → Agrees limiters next t none (some l)
      shared :
          (p u : ℕ) (l : r.Limiter)
          → get ℕ_discrete p limiters ≡ some l
          → AsOf l u
          → p < next
          → Agrees limiters next t (some (p, u)) (some l)

    Agrees-later :
        (ls : List (ℕ × r.Limiter)) (next t : ℕ) (o : Option (ℕ × ℕ)) (kept : Option r.Limiter)
        (ls' : List (ℕ × r.Limiter)) (now : ℕ)
        → Agrees ls next t o kept
        → t ≤ now
        → ((p u : ℕ)
            → p < next
            → live ttl now o ≡ some (p, u)
            → get ℕ_discrete p ls' ≡ get ℕ_discrete p ls)
        → Agrees ls' (next + 1) now (live ttl now o) kept
    Agrees-later ls next t _ _ ls' now unknown later same = unknown
    Agrees-later ls next t _ _ ls' now (rested l u a h) later same = rested l u a (omega arith)
    Agrees-later ls next t _ _ ls' now (shared p u l g a b) later same =
        elim (Bool-cases (ltb now (u + ttl))) [
          | inl q ↦ rw q (shared p u l (same p u b (rw q refl) ∙ g) a (omega arith))
          | inr q ↦ rw q (rested l u a (ground arith))
        ]

    -- What a request of the address finds.
    abbrev Finds : List (ℕ × r.Limiter) → ℕ → ℕ → Option (ℕ × ℕ) → Option r.Limiter → Type 0
    Finds ls next now o kept =
        (l : r.Limiter) × (get ℕ_discrete (value_or next (live ttl now o))
            (put ℕ_discrete next (r.new_limiter every burst) ls)
          ≡ some l)
        × (admit r (or_new kept) now ≡ admit r l now)
        × AsOf (admit r l now).1 now
        × (value_or next (live ttl now o) < next + 1)

    fresh_found :
        (ls : List (ℕ × r.Limiter)) (next : ℕ)
        → get ℕ_discrete next (put ℕ_discrete next (r.new_limiter every burst) ls)
          ≡ some (r.new_limiter every burst)
    fresh_found ls next =
        ground (arith, get-put ℕ_discrete next next (r.new_limiter every burst) ls)

    Agrees-Finds :
        (ls : List (ℕ × r.Limiter)) (next t : ℕ) (o : Option (ℕ × ℕ)) (kept : Option r.Limiter)
        (now : ℕ)
        → Agrees ls next t o kept
        → t ≤ now
        → Finds ls next now o kept
    Agrees-Finds ls next t _ _ now unknown later =
        (r.new_limiter every burst, fresh_found ls next, refl, first now, omega arith)
    Agrees-Finds ls next t _ _ now (rested l u a h) later = (
      r.new_limiter every burst,
      fresh_found ls next,
      rested_full l u now a (omega arith),
      first now,
      omega arith,
    )
    Agrees-Finds ls next t _ _ now (shared p u l g a b) later =
        elim (Bool-cases (ltb now (u + ttl))) [
          | inl q ↦ rw q (
            l,
            ground (arith, get-put ℕ_discrete next p (r.new_limiter every burst) ls),
            refl,
            again l u now a,
            omega arith,
          )
          | inr q ↦ rw q (
            r.new_limiter every burst,
            fresh_found ls next,
            rested_full l u now a (ground arith),
            first now,
            omega arith,
          )
        ]

    module _ {Ip : Type 0} (dec : Discrete Ip) where
      record Matches (s : State r Ip) (table : List (Ip × r.Limiter)) (t : ℕ) : Type 0 where
        sound : IsSound dec s.ip_limiter_map t
        same_ttl : s.ip_limiter_map.ttl ≡ ttl
        apart :
            (i j : Ip) (p u w : ℕ)
            → peek dec s.ip_limiter_map i ≡ some (p, u)
            → peek dec s.ip_limiter_map j ≡ some (p, w)
            → i ≡ j
        agrees :
            (i : Ip) → Agrees s.limiters s.next t (peek dec s.ip_limiter_map i) (get dec i table)

      live_some :
          (o : Option (ℕ × ℕ)) (now p u : ℕ) → live ttl now o ≡ some (p, u) → o ≡ some (p, u)
      live_some none now p u h = h
      live_some (some (q, w)) now p u h = ground arith

      Agrees-below :
          (ls : List (ℕ × r.Limiter)) (next t p u : ℕ) (o : Option (ℕ × ℕ))
          (kept : Option r.Limiter)
          → Agrees ls next t o kept
          → o ≡ some (p, u)
          → p < next
      Agrees-below ls next t p u _ _ unknown h = absurd (ground arith)
      Agrees-below ls next t p u _ _ (rested l w a k) h = absurd (ground arith)
      Agrees-below ls next t p u _ _ (shared q w l g a b) h = ground arith

      -- The state after a request whose limiter was `l`.
      after : State r Ip → Ip → ℕ → r.Limiter → State r Ip
      after s ip now l =
          let call = get_or_set dec s.ip_limiter_map ip s.next now in
          record {
            ip_limiter_map = call.1;
            limiters =
                put ℕ_discrete call.0 (admit r l now).1
                  (put ℕ_discrete s.next (r.new_limiter every burst) s.limiters);
            next = s.next + 1;
          }

      handle_found :
          (s : State r Ip) (ip : Ip) (now : ℕ) (l : r.Limiter)
          → get ℕ_discrete
              (get_or_set dec s.ip_limiter_map ip s.next now).0
              (put ℕ_discrete s.next (r.new_limiter every burst) s.limiters)
            ≡ some l
          → handle r dec every burst s ip now ≡ some ((admit r l now).0, after s ip now l)
      unfolding handle after
      handle_found s ip now l h = rw (h, handle) refl

      -- An entry whose limiter the request takes is that of its address.
      taken :
          (s : State r Ip) (table : List (Ip × r.Limiter)) (t now : ℕ) (ip j : Ip) (p w : ℕ)
          → Matches s table t
          → p ≡ value_or s.next (live ttl now (peek dec s.ip_limiter_map ip))
          → live ttl now (peek dec s.ip_limiter_map j) ≡ some (p, w)
          → ip ≡ j
      taken s table t now ip j p w m e h =
          let m' = s.ip_limiter_map in
          let there = live_some (peek dec m' j) now p w h in
          elim (Option-cases (live ttl now (peek dec m' ip))) [
            | inl q ↦
                let old =
                  Agrees-below s.limiters s.next t p w (peek dec m' j) (get dec j table)
                    (m.agrees j) there in
                let new : p ≡ s.next = e ∙ ap (value_or s.next) q in absurd (omega arith)
            | inr ((v, u), q) ↦
                let same : p ≡ v = e ∙ ap (value_or s.next) q in
                let here = live_some (peek dec m' ip) now v u q in
                m.apart ip j p u w (ground (arith, here, same)) there
          ]

      -- What a request leaves at an address.
      peek-after :
          (s : State r Ip) (table : List (Ip × r.Limiter)) (t now : ℕ) (ip j : Ip) (l : r.Limiter)
          → Matches s table t
          → peek dec (after s ip now l).ip_limiter_map j
            ≡ ite
                (dec ip j)
                (some (value_or s.next (live ttl now (peek dec s.ip_limiter_map ip)), now))
                (live ttl now (peek dec s.ip_limiter_map j))
      unfolding after
      peek-after s table t now ip j l m =
          let call = get_or_set_lem dec s.ip_limiter_map t now ip j s.next m.sound in
          ground (arith, call, m.same_ttl)

      apart_after :
          (s : State r Ip) (table : List (Ip × r.Limiter)) (t now : ℕ) (ip : Ip) (l : r.Limiter)
          → Matches s table t
          → (i j : Ip) (p u w : ℕ) → peek dec (after s ip now l).ip_limiter_map i ≡ some (p, u)
          → peek dec (after s ip now l).ip_limiter_map j ≡ some (p, w)
          → i ≡ j
      apart_after s table t now ip l m i j p u w hi hj =
          let at_i = peek-after s table t now ip i l m in
          let at_j = peek-after s table t now ip j l m in
          elim (dec ip i) [
            | yes x ↦ elim (dec ip j) [
              | yes y ↦ sym x ∙ y
              | no y ↦ sym x ∙ taken s table t now ip j p w m (ground arith) (ground arith)
            ]
            | no x ↦ elim (dec ip j) [
              | yes y ↦ sym (taken s table t now ip i p u m (ground arith) (ground arith)) ∙ y
              | no y ↦
                  m.apart i j p u w (live_some (peek dec s.ip_limiter_map i) now p u (ground arith))
                    (live_some (peek dec s.ip_limiter_map j) now p w (ground arith))
            ]
          ]

      pointer_lem :
          (s : State r Ip) (table : List (Ip × r.Limiter)) (t now : ℕ) (ip : Ip)
          → Matches s table t
          → (get_or_set dec s.ip_limiter_map ip s.next now).0
            ≡ value_or s.next (live ttl now (peek dec s.ip_limiter_map ip))
      pointer_lem s table t now ip m =
          let call = get_or_set_lem dec s.ip_limiter_map t now ip ip s.next m.sound in
          ground (arith, call, m.same_ttl)

      Agrees-after :
          (s : State r Ip) (table : List (Ip × r.Limiter)) (t now : ℕ) (ip : Ip)
          → Matches s table t
          → t ≤ now
          → (l : r.Limiter)
          → get ℕ_discrete
              (value_or s.next (live ttl now (peek dec s.ip_limiter_map ip)))
              (put ℕ_discrete s.next (r.new_limiter every burst) s.limiters)
            ≡ some l
          → AsOf (admit r l now).1 now
          → value_or s.next (live ttl now (peek dec s.ip_limiter_map ip)) < s.next + 1
          → (j : Ip)
          → Agrees
              (after s ip now l).limiters
              (after s ip now l).next
              now
              (peek dec (after s ip now l).ip_limiter_map j)
              (get dec j (put dec ip (admit r l now).1 table))
      unfolding after
      Agrees-after s table t now ip m later l found used below j =
          let v = value_or s.next (live ttl now (peek dec s.ip_limiter_map ip)) in
          let own = pointer_lem s table t now ip m in
          let at_j = peek-after s table t now ip j l m in
          let in_table = get-put dec ip j (admit r l now).1 table in
          let made = put ℕ_discrete s.next (r.new_limiter every burst) s.limiters in
          elim (dec ip j) [
            | yes x ↦
                let o_eq : peek dec (after s ip now l).ip_limiter_map j ≡ some (v, now) =
                  ground arith in
                let k_eq : get dec j (put dec ip (admit r l now).1 table) ≡ some (admit r l now).1 =
                  ground arith in
                let g : get ℕ_discrete v (after s ip now l).limiters ≡ some (admit r l now).1 =
                  ground (arith, own, get-put ℕ_discrete v v (admit r l now).1 made) in
                rw (o_eq, k_eq) (shared v now (admit r l now).1 g used below)
            | no x ↦
                let o_eq : peek dec (after s ip now l).ip_limiter_map j
                    ≡ live ttl now (peek dec s.ip_limiter_map j) =
                  ground arith in
                let k_eq : get dec j (put dec ip (admit r l now).1 table) ≡ get dec j table =
                  ground arith in
                rw (o_eq, k_eq)
                  (Agrees-later s.limiters s.next t (peek dec s.ip_limiter_map j) (get dec j table)
                    (after s ip now l).limiters now (m.agrees j) later
                    (λ p u b q. ground (
                      arith,
                      own,
                      (λ (e : p ≡ v). x (taken s table t now ip j p u m e q)),
                      get-put ℕ_discrete v p (admit r l now).1 made,
                      get-put ℕ_discrete s.next p (r.new_limiter every burst) s.limiters,
                    )))
          ]

      step :
          (s : State r Ip) (table : List (Ip × r.Limiter)) (t now : ℕ) (ip : Ip)
          → Matches s table t
          → t ≤ now
          → (s' : State r Ip) × (handle r dec every burst s ip now
              ≡ some ((handle_forever dec table ip now).0, s'))
            × Matches s' (handle_forever dec table ip now).1 now
      unfolding handle_forever after
      step s table t now ip m later =
          let m' = s.ip_limiter_map in
          let (l, found, same, used, below) =
            Agrees-Finds s.limiters s.next t (peek dec m' ip) (get dec ip table) now (m.agrees ip)
              later in
          let own = pointer_lem s table t now ip m in
          (
            after s ip now l,
            rw same (handle_found s ip now l (rw own found)),
            rw same (record {
              sound = get_or_set-IsSound dec m' t now ip s.next m.sound later;
              same_ttl = get_or_set-ttl dec m' now ip s.next ∙ m.same_ttl;
              apart = apart_after s table t now ip l m;
              agrees = Agrees-after s table t now ip m later l found used below;
            }),
          )

      start-Matches : Matches (rate_limit r every burst) [] 0
      unfolding rate_limit peek entry new_ttl_map get
      start-Matches = record {
        sound = new_ttl_map-IsSound dec ttl;
        same_ttl = refl;
        apart = λ i j p u w h k. absurd (ground arith);
        agrees = λ i. unknown;
      }

      run_lem :
          (s : State r Ip) (table : List (Ip × r.Limiter)) (t : ℕ) (requests : List (Ip × ℕ))
          → Matches s table t
          → IsInTime t requests
          → handle_all dec s requests ≡ some (forever_all dec table requests)
      unfolding handle_all forever_all
      run_lem s table t [] m o = refl
      run_lem s table t ((ip, now) ∷ requests) m o =
          let (s', one, m') = step s table t now ip m o.0 in
          let rest = run_lem s' (handle_forever dec table ip now).1 now requests m' o.1 in
          ground (arith, one, rest)

      -- With limiters that are full after a rest, forgetting addresses changes no answer: requests
      -- in the order of time are answered as by a limiter for each address that is kept for ever.
      pub handle_all-rate_limit :
          (requests : List (Ip × ℕ))
          → IsInTime 0 requests
          → handle_all dec (rate_limit r every burst) requests ≡ some (forever_all dec [] requests)
      handle_all-rate_limit requests o =
          run_lem (rate_limit r every burst) [] 0 requests start-Matches o
