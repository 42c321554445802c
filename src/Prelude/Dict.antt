-- ===== src/Prelude/Dict.antt =====
-- Go maps as association lists without duplicate keys, over keys with decidable equality.
use mathlib.Core.Path.{◌≡◌, refl, sym, subst}
use mathlib.Core.Logic.{◌≢◌, ite, if_pos, if_neg}
use mathlib.Core.List.{List, [], ◌∷◌}
use mathlib.Core.Option.{Option, none, some}
use native.Mathlib.Omega.{arith}

module _ {ℓ} {K V : Type ℓ} (dec : Discrete K) where
  unfoldable pub get : K → List (K × V) → Option V
  get k [] = none
  get k ((j, v) ∷ m) = ite (dec j k) (some v) (get k m)

  -- `m[k] = v`: an entry keeps its place, a new key goes to the end.
  unfoldable pub put : K → V → List (K × V) → List (K × V)
  put k v [] = (k, v) ∷ []
  put k v ((j, w) ∷ m) = ite (dec j k) ((k, v) ∷ m) ((j, w) ∷ put k v m)

  -- `delete(m, k)`
  unfoldable pub delete : K → List (K × V) → List (K × V)
  delete k [] = []
  delete k ((j, w) ∷ m) = ite (dec j k) (delete k m) ((j, w) ∷ delete k m)

  pub get-put :
      (k j : K) (v : V) (m : List (K × V)) → get j (put k v m) ≡ ite (dec k j) (some v) (get j m)
  unfolding get put
  get-put k j v [] = refl
  get-put k j v ((i, w) ∷ m) = ground (arith, get-put k j v m)

  pub get-delete : (k j : K) (m : List (K × V)) → get j (delete k m) ≡ ite (dec k j) none (get j m)
  unfolding get delete
  get-delete k j [] = ground arith
  get-delete k j ((i, w) ∷ m) = ground (arith, get-delete k j m)

module _ {ℓ} {K V : Type ℓ} where
  -- No key stands twice.
  abbrev pub IsFresh : K → List (K × V) → Type ℓ
  IsFresh k [] = Unit
  IsFresh k ((j, w) ∷ m) = (j ≢ k) × IsFresh k m

  abbrev pub IsDistinct : List (K × V) → Type ℓ
  IsDistinct [] = Unit
  IsDistinct ((j, w) ∷ m) = IsFresh j m × IsDistinct m

module _ {ℓ} {K V : Type ℓ} (dec : Discrete K) where
  pub get_of_IsFresh : (k : K) (m : List (K × V)) → IsFresh k m → get dec k m ≡ none
  unfolding get
  get_of_IsFresh k [] h = refl
  get_of_IsFresh k ((j, w) ∷ m) h = ground (arith, get_of_IsFresh k m h.1)

  pub put-IsFresh :
      (k j : K) (v : V) (m : List (K × V)) → j ≢ k → IsFresh k m → IsFresh k (put dec j v m)
  unfolding put
  put-IsFresh k j v [] n h = (n, tt)
  put-IsFresh k j v ((i, w) ∷ m) n h = ground (arith, put-IsFresh k j v m n h.1)

  pub delete-IsFresh : (k j : K) (m : List (K × V)) → IsFresh k m → IsFresh k (delete dec j m)
  unfolding delete
  delete-IsFresh k j [] h = tt
  delete-IsFresh k j ((i, w) ∷ m) h = ground (arith, delete-IsFresh k j m h.1)

  pub put-IsDistinct :
      (k : K) (v : V) (m : List (K × V)) → IsDistinct m → IsDistinct (put dec k v m)
  unfolding put
  put-IsDistinct k v [] h = (tt, tt)
  put-IsDistinct k v ((i, w) ∷ m) h = elim (dec i k) [
    | yes e ↦ rw (if_pos _ e) (subst (λ x. IsFresh x m) e h.0, h.1)
    | no n ↦ rw (if_neg _ n) (put-IsFresh i k v m (λ e. n (sym e)) h.0, put-IsDistinct k v m h.1)
  ]

  pub delete-IsDistinct : (k : K) (m : List (K × V)) → IsDistinct m → IsDistinct (delete dec k m)
  unfolding delete
  delete-IsDistinct k [] h = tt
  delete-IsDistinct k ((i, w) ∷ m) h =
      ground (arith, delete-IsDistinct k m h.1, delete-IsFresh i k m h.0)
