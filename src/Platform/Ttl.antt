-- ===== src/Platform/Ttl.antt =====
-- internal/platform/ttlmap.go: a map whose entries are evicted when they were not used for a time.
-- An element of container/list is a number with the item that it points to; the list has them in
-- order. Times are nanoseconds of the monotonic clock, read once in a call.
pub mod Entries
pub mod Evict
pub mod Laws
pub mod Retention
pub mod Shape
use native.Mathlib.Decide.{ℕ_discrete}
use star.Prelude.{ℕ, ◌+◌, Bool, Option, none, some, List, [], ◌∷◌, ◌++◌, ltb, if◌then◌else◌}
use star.Prelude.Dict.{get, put, delete}

pub record Item (K V : Type 0) : Type 0 where
  pub key : K
  pub value : V
  pub t : ℕ

-- `next` is the identity of the element that the next `PushBack` makes.
pub record TtlMap (K V : Type 0) : Type 0 where
  pub ttl : ℕ
  pub list : List (ℕ × Item K V)
  pub items : List (K × ℕ)
  pub next : ℕ

module _ {K V : Type 0} where
  unfoldable pub new_ttl_map : ℕ → TtlMap K V
  new_ttl_map ttl = record { ttl = ttl; list = []; items = []; next = 0 }

module _ {K V : Type 0} (dec : Discrete K) where
  -- The loop that drops expired items, from the front on.
  pub evict : ℕ → ℕ → List (ℕ × Item K V) → List (K × ℕ) → List (ℕ × Item K V) × List (K × ℕ)
  evict ttl now [] items = ([], items)
  evict ttl now ((e, it) ∷ l) items =
      let rest = evict ttl now l (delete dec it.key items) in
      if ltb now (it.t + ttl) then ((e, it) ∷ l, items) else rest

  -- `get`: `none` where it returns false. The element that `items` has is in the list.
  pub lookup : TtlMap K V → K → ℕ → Option (V × TtlMap K V)
  lookup m k now = elim (get dec k m.items) [
    | none ↦ none
    | some e ↦ elim (get ℕ_discrete e m.list) [
      | none ↦ none
      | some it ↦ some (
        it.value,
        record m { list = delete ℕ_discrete e m.list ++ (e, record it { t = now }) ∷ [] },
      )
    ]
  ]

  pub add : TtlMap K V → K → V → ℕ → TtlMap K V
  add m k v now = record m {
    list = m.list ++ (m.next, record { key = k; value = v; t = now }) ∷ [];
    items = put dec k m.next m.items;
    next = m.next + 1;
  }

  -- `GetOrSet` at a time, with the value that `newV` would make.
  pub get_or_set : TtlMap K V → K → V → ℕ → V × TtlMap K V
  unfolding evict lookup add
  get_or_set m k new_v now =
      let (list, items) = evict m.ttl now m.list m.items in
      let kept = record m { list = list; items = items } in
      elim (lookup kept k now) [ some found ↦ found | none ↦ (new_v, add kept k new_v now) ]
