-- ===== src/Platform/Ttl/Entries.antt =====
-- The entries of internal/platform/ttlmap.go by their key, as the list has them.
use native.Mathlib.Decide.{ℕ_discrete}
use mathlib.Core.Logic.{ite}
use star.Prelude.{ℕ, ◌≤◌, ◌<◌, ◌≡◌, ◌≢◌, refl, ap, Option, none, some, List, [], ◌∷◌, ◌++◌, arith}
use star.Prelude.Dict.{get, delete, IsFresh, IsDistinct}
use star.Platform.Ttl.{Item}

module _ {K V : Type 0} where
  abbrev pub IsKeyFresh : K → List (ℕ × Item K V) → Type 0
  IsKeyFresh k [] = Unit
  IsKeyFresh k ((e, it) ∷ l) = (it.key ≢ k) × IsKeyFresh k l

  abbrev pub HasDistinctKeys : List (ℕ × Item K V) → Type 0
  HasDistinctKeys [] = Unit
  HasDistinctKeys ((e, it) ∷ l) = IsKeyFresh it.key l × HasDistinctKeys l

  -- Oldest use first, from one time to another.
  abbrev pub IsOrdered : ℕ → List (ℕ × Item K V) → ℕ → Type 0
  IsOrdered from [] to = from ≤ to
  IsOrdered from ((e, it) ∷ l) to = (from ≤ it.t) × IsOrdered it.t l to

  -- Every element was made before the number `next`.
  abbrev pub IsBelow : ℕ → List (ℕ × Item K V) → Type 0
  IsBelow next [] = Unit
  IsBelow next ((e, it) ∷ l) = (e < next) × IsBelow next l

  pub IsBelow-IsFresh : (next : ℕ) (l : List (ℕ × Item K V)) → IsBelow next l → IsFresh next l
  IsBelow-IsFresh next [] h = tt
  IsBelow-IsFresh next ((e, it) ∷ l) h = ((λ q. absurd (omega arith)), IsBelow-IsFresh next l h.1)

  pub delete_fresh : (e : ℕ) (l : List (ℕ × Item K V)) → IsFresh e l → delete ℕ_discrete e l ≡ l
  unfolding delete
  delete_fresh e [] h = refl
  delete_fresh e ((i, it) ∷ l) h = ground (arith, delete_fresh e l h.1)

  pub deleted-IsFresh : (e : ℕ) (l : List (ℕ × Item K V)) → IsFresh e (delete ℕ_discrete e l)
  unfolding delete
  deleted-IsFresh e [] = tt
  deleted-IsFresh e ((i, it) ∷ l) = ground (arith, deleted-IsFresh e l)

module _ {K V : Type 0} (dec : Discrete K) where
  unfoldable pub entry : K → List (ℕ × Item K V) → Option (ℕ × Item K V)
  entry k [] = none
  entry k ((e, it) ∷ l) = ite (dec it.key k) (some (e, it)) (entry k l)

  pub entry_fresh : (k : K) (l : List (ℕ × Item K V)) → IsKeyFresh k l → entry k l ≡ none
  unfolding entry
  entry_fresh k [] h = refl
  entry_fresh k ((e, it) ∷ l) h = ground (arith, entry_fresh k l h.1)

  pub entry_ne :
      (k : K) (l : List (ℕ × Item K V)) (i e : ℕ) (it : Item K V)
      → IsFresh i l
      → entry k l ≡ some (e, it)
      → e ≢ i
  unfolding entry
  entry_ne k [] i e it h q = cc
  entry_ne k ((j, jt) ∷ l) i e it h q = elim (dec jt.key k) [
    | yes p ↦ λ z. h.0 (ground arith)
    | no n ↦ entry_ne k l i e it h.1 (ground arith)
  ]

  pub entry_key :
      (k : K) (l : List (ℕ × Item K V)) (e : ℕ) (it : Item K V)
      → entry k l ≡ some (e, it)
      → it.key ≡ k
  unfolding entry
  entry_key k [] e it q = cc
  entry_key k ((j, jt) ∷ l) e it q = elim (dec jt.key k) [
    | yes p ↦ ground arith
    | no n ↦ entry_key k l e it (ground arith)
  ]

  -- The element leads to its item.
  pub get-entry :
      (k : K) (l : List (ℕ × Item K V)) (e : ℕ) (it : Item K V)
      → IsDistinct l
      → entry k l ≡ some (e, it)
      → get ℕ_discrete e l ≡ some it
  unfolding entry get
  get-entry k [] e it h q = cc
  get-entry k ((j, jt) ∷ l) e it h q = elim (dec jt.key k) [
    | yes p ↦ ground arith
    | no n ↦
        let rest : entry k l ≡ some (e, it) = ground arith in
        ground (arith, get-entry k l e it h.1 rest, entry_ne k l j e it h.0 rest)
  ]

  pub entry-snoc :
      (k : K) (l : List (ℕ × Item K V)) (e : ℕ) (it : Item K V)
      → entry k (l ++ (e, it) ∷ [])
        ≡ elim (entry k l) [ none ↦ ite (dec it.key k) (some (e, it)) none | some x ↦ some x ]
  unfolding entry
  entry-snoc k [] e it = refl
  entry-snoc k ((j, jt) ∷ l) e it = ground (arith, entry-snoc k l e it)

  pub entry-delete :
      (k j : K) (l : List (ℕ × Item K V)) (e : ℕ) (it : Item K V)
      → IsDistinct l
      → HasDistinctKeys l
      → entry k l ≡ some (e, it)
      → entry j (delete ℕ_discrete e l) ≡ ite (dec k j) none (entry j l)
  unfolding entry delete
  entry-delete k j [] e it h u q = cc
  entry-delete k j ((i, jt) ∷ l) e it h u q = elim (dec jt.key k) [
    | yes p ↦
        let same : e ≡ i = ground arith in
        let none_left : entry jt.key l ≡ none = entry_fresh jt.key l u.0 in
        let gone = delete_fresh i l h.0 in ground (arith, gone, none_left, ap (λ x. entry x l) p)
    | no n ↦
        let rest : entry k l ≡ some (e, it) = ground arith in
        ground (arith, entry-delete k j l e it h.1 u.1 rest, entry_ne k l i e it h.0 rest)
  ]

  pub fresh_of_entry : (k : K) (l : List (ℕ × Item K V)) → entry k l ≡ none → IsKeyFresh k l
  unfolding entry
  fresh_of_entry k [] h = tt
  fresh_of_entry k ((e, it) ∷ l) h = elim (dec it.key k) [
    | yes p ↦ absurd (ground arith)
    | no n ↦ (n, fresh_of_entry k l (ground arith))
  ]

  pub entry_below :
      (k : K) (next : ℕ) (l : List (ℕ × Item K V)) (e : ℕ) (it : Item K V)
      → IsBelow next l
      → entry k l ≡ some (e, it)
      → e < next
  unfolding entry
  entry_below k next [] e it h q = absurd (ground arith)
  entry_below k next ((j, jt) ∷ l) e it h q = elim (dec jt.key k) [
    | yes p ↦ ground arith
    | no n ↦ entry_below k next l e it h.1 (ground arith)
  ]
