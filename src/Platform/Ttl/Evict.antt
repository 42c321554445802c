-- ===== src/Platform/Ttl/Evict.antt =====
-- The loop of `GetOrSet` in internal/platform/ttlmap.go that drops expired items.
use star.Prelude.{
  lt→ltb, false, Option-cases, inl, inr, ℕ, ◌+◌, ◌≤◌, ◌<◌, ◌≡◌, refl, ap, none, some, List, [], ◌∷◌,
  arith, ltb, if◌then◌else◌, dec_lt,
}
use star.Prelude.Dict.{get, delete, get-delete, IsFresh, IsDistinct}
use star.Platform.Ttl.{Item, evict}
use star.Platform.Ttl.Entries.{IsKeyFresh, HasDistinctKeys, IsOrdered, IsBelow, entry, entry_fresh}

not_ltb : (a b : ℕ) → ¬ (a < b) → ltb a b ≡ false
not_ltb a b h = ground arith

module _ {K V : Type 0} where
  -- What the loop leaves of the list.
  pub unexpired : ℕ → ℕ → List (ℕ × Item K V) → List (ℕ × Item K V)
  unexpired ttl now [] = []
  unexpired ttl now ((e, it) ∷ l) =
      let rest = unexpired ttl now l in if ltb now (it.t + ttl) then (e, it) ∷ l else rest

  unexpired-IsFresh :
      (ttl now i : ℕ) (l : List (ℕ × Item K V)) → IsFresh i l → IsFresh i (unexpired ttl now l)
  unfolding unexpired
  unexpired-IsFresh ttl now i [] h = tt
  unexpired-IsFresh ttl now i ((e, it) ∷ l) h = ground (arith, unexpired-IsFresh ttl now i l h.1)

  pub unexpired-IsDistinct :
      (ttl now : ℕ) (l : List (ℕ × Item K V)) → IsDistinct l → IsDistinct (unexpired ttl now l)
  unfolding unexpired
  unexpired-IsDistinct ttl now [] h = tt
  unexpired-IsDistinct ttl now ((e, it) ∷ l) h = ground (arith, unexpired-IsDistinct ttl now l h.1)

  pub unexpired-HasDistinctKeys :
      (ttl now : ℕ) (l : List (ℕ × Item K V))
      → HasDistinctKeys l
      → HasDistinctKeys (unexpired ttl now l)
  unfolding unexpired
  unexpired-HasDistinctKeys ttl now [] h = tt
  unexpired-HasDistinctKeys ttl now ((e, it) ∷ l) h =
      ground (arith, unexpired-HasDistinctKeys ttl now l h.1)

  pub unexpired-IsBelow :
      (ttl now next : ℕ) (l : List (ℕ × Item K V))
      → IsBelow next l
      → IsBelow next (unexpired ttl now l)
  unfolding unexpired
  unexpired-IsBelow ttl now next [] h = tt
  unexpired-IsBelow ttl now next ((e, it) ∷ l) h =
      ground (arith, unexpired-IsBelow ttl now next l h.1)

  pub IsOrdered-earlier :
      (from to : ℕ) (l : List (ℕ × Item K V)) (start : ℕ)
      → start ≤ from
      → IsOrdered from l to
      → IsOrdered start l to
  IsOrdered-earlier from to [] start h o = omega arith
  IsOrdered-earlier from to ((e, it) ∷ l) start h o = (omega arith, o.1)

  pub unexpired-IsOrdered :
      (ttl now from to : ℕ) (l : List (ℕ × Item K V))
      → IsOrdered from l to
      → IsOrdered from (unexpired ttl now l) to
  unfolding unexpired
  unexpired-IsOrdered ttl now from to [] h = h
  unexpired-IsOrdered ttl now from to ((e, it) ∷ l) h = elim (dec_lt now (it.t + ttl)) [
    | yes p ↦ rw (lt→ltb _ _ p) h
    | no n ↦
        rw (not_ltb _ _ n)
          (unexpired-IsOrdered ttl now from to l (IsOrdered-earlier it.t to l from h.0 h.1))
  ]

module _ {K V : Type 0} (dec : Discrete K) where
  pub evict_list :
      (ttl now : ℕ) (l : List (ℕ × Item K V)) (items : List (K × ℕ))
      → (evict dec ttl now l items).0 ≡ unexpired ttl now l
  unfolding evict unexpired
  evict_list ttl now [] items = refl
  evict_list ttl now ((e, it) ∷ l) items =
      ground (arith, evict_list ttl now l (delete dec it.key items))

  -- The table leads to the elements of the list.
  abbrev pub Leads : List (ℕ × Item K V) → List (K × ℕ) → Type 0
  Leads l items =
      (k : K) → get dec k items ≡ elim (entry dec k l) [ none ↦ none | some (e, it) ↦ some e ]

  tail-Leads :
      (e : ℕ) (it : Item K V) (l : List (ℕ × Item K V)) (items : List (K × ℕ))
      → IsKeyFresh it.key l
      → Leads ((e, it) ∷ l) items
      → Leads l (delete dec it.key items)
  unfolding entry
  tail-Leads e it l items u h k = elim (dec it.key k) [
    | yes p ↦
        let left = entry_fresh dec it.key l u in
        ground (arith, get-delete dec it.key k items, left, ap (λ x. entry dec x l) p)
    | no n ↦ ground (arith, get-delete dec it.key k items, h k)
  ]

  pub evict-Leads :
      (ttl now : ℕ) (l : List (ℕ × Item K V)) (items : List (K × ℕ))
      → HasDistinctKeys l
      → Leads l items
      → Leads (evict dec ttl now l items).0 (evict dec ttl now l items).1
  unfolding evict
  evict-Leads ttl now [] items u h = h
  evict-Leads ttl now ((e, it) ∷ l) items u h = elim (dec_lt now (it.t + ttl)) [
    | yes p ↦ rw (lt→ltb _ _ p) h
    | no n ↦
        rw (not_ltb _ _ n)
          (evict-Leads ttl now l (delete dec it.key items) u.1 (tail-Leads e it l items u.0 h))
  ]

  entry_later :
      (k : K) (from to : ℕ) (l : List (ℕ × Item K V)) (e : ℕ) (it : Item K V)
      → IsOrdered from l to
      → entry dec k l ≡ some (e, it)
      → from ≤ it.t
  unfolding entry
  entry_later k from to [] e it o q = absurd (ground arith)
  entry_later k from to ((i, jt) ∷ l) e it o q = elim (dec jt.key k) [
    | yes p ↦ ground arith
    | no n ↦ ground (arith, entry_later k jt.t to l e it o.1)
  ]

  -- In order of use, the loop drops exactly the expired items.
  pub entry-unexpired :
      (k : K) (ttl now from to : ℕ) (l : List (ℕ × Item K V))
      → HasDistinctKeys l
      → IsOrdered from l to
      → entry dec k (unexpired ttl now l) ≡ elim (entry dec k l) [
        | none ↦ none
        | some (e, it) ↦ if ltb now (it.t + ttl) then some (e, it) else none
      ]
  unfolding entry unexpired
  entry-unexpired k ttl now from to [] u o = refl
  entry-unexpired k ttl now from to ((i, jt) ∷ l) u o = elim (dec jt.key k) [
    | yes p ↦
        let left = entry_fresh dec jt.key l u.0 in
        ground (arith, entry-unexpired k ttl now jt.t to l u.1 o.1, left, ap (λ x. entry dec x l) p)
    | no n ↦ elim (dec_lt now (jt.t + ttl)) [
      | yes p ↦ elim (Option-cases (entry dec k l)) [
        | inl q ↦ ground arith
        | inr ((e, it), q) ↦ ground (arith, entry_later k jt.t to l e it o.1 q)
      ]
      | no m ↦ ground (arith, entry-unexpired k ttl now jt.t to l u.1 o.1)
    ]
  ]
