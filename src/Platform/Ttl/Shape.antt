-- ===== src/Platform/Ttl/Shape.antt =====
-- The order and the distinctness of the list of internal/platform/ttlmap.go, as it changes.
use native.Mathlib.Decide.{ℕ_discrete}
use mathlib.Core.Logic.{if_pos, if_neg}
use star.Prelude.{sym, ℕ, ◌+◌, ◌≤◌, ◌<◌, ◌≡◌, ◌≢◌, List, [], ◌∷◌, ◌++◌, arith}
use star.Prelude.Dict.{delete, IsFresh, IsDistinct}
use star.Platform.Ttl.{Item}
use star.Platform.Ttl.Entries.{IsKeyFresh, HasDistinctKeys, IsOrdered, IsBelow}
use star.Platform.Ttl.Evict.{IsOrdered-earlier}

module _ {K V : Type 0} where
  pub snoc-IsFresh :
      (i e : ℕ) (it : Item K V) (l : List (ℕ × Item K V))
      → IsFresh i l
      → e ≢ i
      → IsFresh i (l ++ (e, it) ∷ [])
  snoc-IsFresh i e it [] h n = (n, tt)
  snoc-IsFresh i e it (x ∷ l) h n = (h.0, snoc-IsFresh i e it l h.1 n)

  pub snoc-IsDistinct :
      (e : ℕ) (it : Item K V) (l : List (ℕ × Item K V))
      → IsDistinct l
      → IsFresh e l
      → IsDistinct (l ++ (e, it) ∷ [])
  snoc-IsDistinct e it [] h n = (tt, tt)
  snoc-IsDistinct e it ((j, jt) ∷ l) h n =
      (snoc-IsFresh j e it l h.0 (λ q. n.0 (sym q)), snoc-IsDistinct e it l h.1 n.1)

  pub snoc-IsKeyFresh :
      (k : K) (e : ℕ) (it : Item K V) (l : List (ℕ × Item K V))
      → IsKeyFresh k l
      → it.key ≢ k
      → IsKeyFresh k (l ++ (e, it) ∷ [])
  snoc-IsKeyFresh k e it [] h n = (n, tt)
  snoc-IsKeyFresh k e it (x ∷ l) h n = (h.0, snoc-IsKeyFresh k e it l h.1 n)

  pub snoc-HasDistinctKeys :
      (e : ℕ) (it : Item K V) (l : List (ℕ × Item K V))
      → HasDistinctKeys l
      → IsKeyFresh it.key l
      → HasDistinctKeys (l ++ (e, it) ∷ [])
  snoc-HasDistinctKeys e it [] h n = (tt, tt)
  snoc-HasDistinctKeys e it ((j, jt) ∷ l) h n =
      (snoc-IsKeyFresh jt.key e it l h.0 (λ q. n.0 (sym q)), snoc-HasDistinctKeys e it l h.1 n.1)

  pub snoc-IsOrdered :
      (from to e now : ℕ) (it : Item K V) (l : List (ℕ × Item K V))
      → IsOrdered from l to
      → to ≤ now
      → it.t ≡ now
      → IsOrdered from (l ++ (e, it) ∷ []) now
  snoc-IsOrdered from to e now it [] h n q = (omega arith, omega arith)
  snoc-IsOrdered from to e now it ((j, jt) ∷ l) h n q =
      (h.0, snoc-IsOrdered jt.t to e now it l h.1 n q)

  pub snoc-IsBelow :
      (next e : ℕ) (it : Item K V) (l : List (ℕ × Item K V))
      → IsBelow next l
      → e < next
      → IsBelow next (l ++ (e, it) ∷ [])
  snoc-IsBelow next e it [] h n = (n, tt)
  snoc-IsBelow next e it (x ∷ l) h n = (h.0, snoc-IsBelow next e it l h.1 n)

  pub IsBelow-suc : (next : ℕ) (l : List (ℕ × Item K V)) → IsBelow next l → IsBelow (next + 1) l
  IsBelow-suc next [] h = tt
  IsBelow-suc next (x ∷ l) h = (omega arith, IsBelow-suc next l h.1)

  pub delete-IsKeyFresh :
      (k : K) (e : ℕ) (l : List (ℕ × Item K V))
      → IsKeyFresh k l
      → IsKeyFresh k (delete ℕ_discrete e l)
  unfolding delete
  delete-IsKeyFresh k e [] h = tt
  delete-IsKeyFresh k e ((j, jt) ∷ l) h = ground (arith, delete-IsKeyFresh k e l h.1)

  pub delete-HasDistinctKeys :
      (e : ℕ) (l : List (ℕ × Item K V))
      → HasDistinctKeys l
      → HasDistinctKeys (delete ℕ_discrete e l)
  unfolding delete
  delete-HasDistinctKeys e [] h = tt
  delete-HasDistinctKeys e ((j, jt) ∷ l) h =
      ground (arith, delete-HasDistinctKeys e l h.1, delete-IsKeyFresh jt.key e l h.0)

  pub delete-IsBelow :
      (next e : ℕ) (l : List (ℕ × Item K V)) → IsBelow next l → IsBelow next (delete ℕ_discrete e l)
  unfolding delete
  delete-IsBelow next e [] h = tt
  delete-IsBelow next e ((j, jt) ∷ l) h = ground (arith, delete-IsBelow next e l h.1)

  pub delete-IsOrdered :
      (from to e : ℕ) (l : List (ℕ × Item K V))
      → IsOrdered from l to
      → IsOrdered from (delete ℕ_discrete e l) to
  unfolding delete
  delete-IsOrdered from to e [] h = h
  delete-IsOrdered from to e ((j, jt) ∷ l) h = elim (ℕ_discrete j e) [
    | yes p ↦
        rw (if_pos _ p) (delete-IsOrdered from to e l (IsOrdered-earlier jt.t to l from h.0 h.1))
    | no n ↦ rw (if_neg _ n) (h.0, delete-IsOrdered jt.t to e l h.1)
  ]
