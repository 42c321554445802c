-- ===== src/Platform/Ttl/Laws.antt =====
-- `TTLMap` of internal/platform/ttlmap.go, seen as a function from keys to values and times of use.
use native.Mathlib.Decide.{ℕ_discrete}
use mathlib.Core.Logic.{ite}
use star.Prelude.{
  ℕ, ◌+◌, ◌≤◌, ◌≡◌, refl, sym, ap, subst, Option, none, some, [], ◌∷◌, ◌++◌, arith, ltb,
  if◌then◌else◌,
}
use star.Prelude.Dict.{get-put, delete, delete-IsDistinct, IsDistinct}
use star.Platform.Ttl.{Item, TtlMap, evict, lookup, add, get_or_set}
use star.Platform.Ttl.Entries.{
  IsKeyFresh, HasDistinctKeys, IsOrdered, IsBelow, IsBelow-IsFresh, entry, entry_key, get-entry,
  entry-snoc, entry-delete, entry_below, fresh_of_entry, deleted-IsFresh,
}
use star.Platform.Ttl.Evict.{
  unexpired, unexpired-IsDistinct, unexpired-HasDistinctKeys, unexpired-IsBelow,
  unexpired-IsOrdered, evict_list, Leads, evict-Leads, entry-unexpired,
}
use star.Platform.Ttl.Shape

module _ {V : Type 0} where
  -- What is not expired.
  abbrev pub live : ℕ → ℕ → Option (V × ℕ) → Option (V × ℕ)
  live ttl now none = none
  live ttl now (some (v, t)) = if ltb now (t + ttl) then some (v, t) else none

  -- What a call returns, by the entry of its key that is not expired, if it has one.
  abbrev pub value_or : V → Option (V × ℕ) → V
  value_or v none = v
  value_or v (some (old, t)) = old

module _ {K V : Type 0} (dec : Discrete K) where
  -- Table and list agree, and the list is in order of use up to a time.
  pub record IsSound (m : TtlMap K V) (now : ℕ) : Type 0 where
    pub distinct : IsDistinct m.list
    pub keys : HasDistinctKeys m.list
    pub ordered : IsOrdered 0 m.list now
    pub below : IsBelow m.next m.list
    pub leads : Leads dec m.list m.items

  -- The value of a key and the time of its last use.
  unfoldable pub peek : TtlMap K V → K → Option (V × ℕ)
  peek m k = elim (entry dec k m.list) [ none ↦ none | some (e, it) ↦ some (it.value, it.t) ]

  pub kept : TtlMap K V → ℕ → TtlMap K V
  kept m now = record m {
    list = unexpired m.ttl now m.list;
    items = (evict dec m.ttl now m.list m.items).1;
  }

  pub kept-IsSound :
      (m : TtlMap K V) (before now : ℕ) → IsSound m before → IsSound (kept m now) before
  unfolding kept
  kept-IsSound m before now h = record {
    distinct = unexpired-IsDistinct m.ttl now m.list h.distinct;
    keys = unexpired-HasDistinctKeys m.ttl now m.list h.keys;
    ordered = unexpired-IsOrdered m.ttl now 0 before m.list h.ordered;
    below = unexpired-IsBelow m.ttl now m.next m.list h.below;
    leads =
        subst (λ l. Leads dec l (evict dec m.ttl now m.list m.items).1)
          (evict_list dec m.ttl now m.list m.items)
          (evict-Leads dec m.ttl now m.list m.items h.keys h.leads);
  }

  pub peek-kept :
      (m : TtlMap K V) (before now : ℕ) (k : K)
      → IsSound m before
      → peek (kept m now) k ≡ live m.ttl now (peek m k)
  unfolding kept peek
  peek-kept m before now k h =
      ground (arith, entry-unexpired dec k m.ttl now 0 before m.list h.keys h.ordered)

  pub moved : TtlMap K V → ℕ → Item K V → ℕ → TtlMap K V
  moved m e it now = record m {
    list = delete ℕ_discrete e m.list ++ (e, record it { t = now }) ∷ [];
  }

  pub get_or_set_found :
      (m : TtlMap K V) (before now : ℕ) (k : K) (v : V) (e : ℕ) (it : Item K V)
      → IsSound m before
      → entry dec k (kept m now).list ≡ some (e, it)
      → get_or_set dec m k v now ≡ (it.value, moved (kept m now) e it now)
  unfolding get_or_set lookup kept moved
  get_or_set_found m before now k v e it h q =
      let s = kept-IsSound m before now h in
      ground (
        arith,
        evict_list dec m.ttl now m.list m.items,
        s.leads k,
        get-entry dec k (kept m now).list e it s.distinct q,
      )

  pub get_or_set_missing :
      (m : TtlMap K V) (before now : ℕ) (k : K) (v : V)
      → IsSound m before
      → entry dec k (kept m now).list ≡ none
      → get_or_set dec m k v now ≡ (v, add dec (kept m now) k v now)
  unfolding get_or_set lookup kept add
  get_or_set_missing m before now k v h q =
      let s = kept-IsSound m before now h in
      ground (arith, evict_list dec m.ttl now m.list m.items, s.leads k)

  pub moved-IsSound :
      (m : TtlMap K V) (before now : ℕ) (k : K) (e : ℕ) (it : Item K V)
      → IsSound m before
      → before ≤ now
      → entry dec k m.list ≡ some (e, it)
      → IsSound (moved m e it now) now
  unfolding moved
  moved-IsSound m before now k e it h later q =
      let l = delete ℕ_discrete e m.list in
      let touched = record it { t = now } in
      let key = entry_key dec k m.list e it q in
      let gone : entry dec k l ≡ none =
        ground (arith, entry-delete dec k k m.list e it h.distinct h.keys q) in
      record {
        distinct =
            Shape.snoc-IsDistinct e touched l (delete-IsDistinct ℕ_discrete e m.list h.distinct)
              (deleted-IsFresh e m.list);
        keys =
            Shape.snoc-HasDistinctKeys e touched l (Shape.delete-HasDistinctKeys e m.list h.keys)
              (subst (λ x. IsKeyFresh x l) (sym key) (fresh_of_entry dec k l gone));
        ordered =
            Shape.snoc-IsOrdered 0 before e now touched l
              (Shape.delete-IsOrdered 0 before e m.list h.ordered) later refl;
        below =
            Shape.snoc-IsBelow m.next e touched l (Shape.delete-IsBelow m.next e m.list h.below)
              (entry_below dec k m.next m.list e it h.below q);
        leads = λ j. elim (dec k j) [
          | yes p ↦ ground (
            arith,
            key,
            q,
            h.leads j,
            entry-snoc dec j l e touched,
            entry-delete dec k j m.list e it h.distinct h.keys q,
            ap (λ x. entry dec x m.list) p,
          )
          | no n ↦ ground (
            arith,
            key,
            h.leads j,
            entry-snoc dec j l e touched,
            entry-delete dec k j m.list e it h.distinct h.keys q,
          )
        ];
      }

  pub peek-moved :
      (m : TtlMap K V) (now : ℕ) (k j : K) (e : ℕ) (it : Item K V)
      → IsDistinct m.list
      → HasDistinctKeys m.list
      → entry dec k m.list ≡ some (e, it)
      → peek (moved m e it now) j ≡ ite (dec k j) (some (it.value, now)) (peek m j)
  unfolding moved peek
  peek-moved m now k j e it d u q = ground (
    arith,
    entry_key dec k m.list e it q,
    entry-snoc dec j (delete ℕ_discrete e m.list) e (record it { t = now }),
    entry-delete dec k j m.list e it d u q,
  )

  pub add-IsSound :
      (m : TtlMap K V) (before now : ℕ) (k : K) (v : V)
      → IsSound m before
      → before ≤ now
      → entry dec k m.list ≡ none
      → IsSound (add dec m k v now) now
  unfolding add
  add-IsSound m before now k v h later q =
      let it : Item K V = record { key = k; value = v; t = now } in
      record {
        distinct =
            Shape.snoc-IsDistinct m.next it m.list h.distinct
              (IsBelow-IsFresh m.next m.list h.below);
        keys = Shape.snoc-HasDistinctKeys m.next it m.list h.keys (fresh_of_entry dec k m.list q);
        ordered = Shape.snoc-IsOrdered 0 before m.next now it m.list h.ordered later refl;
        below =
            Shape.snoc-IsBelow (m.next + 1) m.next it m.list
              (Shape.IsBelow-suc m.next m.list h.below) (omega arith);
        leads = λ j. elim (dec k j) [
          | yes p ↦ ground (
            arith,
            q,
            entry-snoc dec j m.list m.next it,
            get-put dec k j m.next m.items,
            ap (λ x. entry dec x m.list) p,
          )
          | no n ↦
              ground (
                arith,
                h.leads j,
                entry-snoc dec j m.list m.next it,
                get-put dec k j m.next m.items,
              )
        ];
      }

  pub peek-add :
      (m : TtlMap K V) (now : ℕ) (k j : K) (v : V)
      → entry dec k m.list ≡ none
      → peek (add dec m k v now) j ≡ ite (dec k j) (some (v, now)) (peek m j)
  unfolding add peek
  peek-add m now k j v q = elim (dec k j) [
    | yes p ↦ ground (
      arith,
      entry-snoc dec j m.list m.next (record { key = k; value = v; t = now }),
      ap (λ x. entry dec x m.list) p,
    )
    | no n ↦ ground (arith, entry-snoc dec j m.list m.next (record { key = k; value = v; t = now }))
  ]
