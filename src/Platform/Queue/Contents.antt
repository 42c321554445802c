-- ===== src/Platform/Queue/Contents.antt =====
-- internal/platform/queue.go: the ring buffer seen as a list, oldest item first.
use star.Prelude.{
  ℕ, ◌+◌, ◌-◌, ◌%◌, ◌≤◌, ◌<◌, ◌≡◌, refl, ◌≢◌, Bool, true, false, List, [], ◌∷◌, arith, length,
  get_or, tabulate, ltb, if◌then◌else◌, dec_lt,
}
use native.Mathlib.Nat.{mod-eq_of_lt, mod-eq-sub-mod}
use star.Platform.Queue.{Queue, empty}

pub record IsValid {ℓ} {A : Type ℓ} (q : Queue A) : Type ℓ where
  pub fits : q.len ≤ length q.buf
  pub in_range : 0 < length q.buf → q.head < length q.buf

-- `(head + i) % cap` while `i` stays within one turn of the ring.
wrap : (a n : ℕ) → a < n + n → a % n ≡ (if ltb a n then a else a - n)
wrap a n h = elim (dec_lt a n) [
  | yes p ↦ rw (mod-eq_of_lt p) (ground arith)
  | no p ↦
      rw
        (
          mod-eq-sub-mod {n = a} {m = n} (omega arith),
          mod-eq_of_lt {n = a - n} {m = n} (omega arith),
        )
        (ground arith)
]

pub wrap_ne : (h i j n : ℕ) → h < n → i < j → j < n → (h + i) % n ≢ (h + j) % n
wrap_ne h i j n hn ij jn e = ground (arith, wrap (h + i) n, wrap (h + j) n)

module _ {ℓ} {A : Type ℓ} (zero_value : A) where
  -- The item `i` places behind the head.
  abbrev pub item_at : Queue A → ℕ → A
  item_at q i = get_or q.buf ((q.head + i) % length q.buf) zero_value

  -- The queue as a list, first in, first out.
  unfoldable pub to_list : Queue A → List A
  to_list q = tabulate (item_at q) q.len

  -- What the first value of a list is to a caller of `Peek` or `Pop`, and what stays.
  abbrev pub front : List A → A × Bool
  front [] = (zero_value, false)
  front (x ∷ xs) = (x, true)

  abbrev pub rest : List A → List A
  rest [] = []
  rest (x ∷ xs) = xs

  pub empty-IsValid : IsValid (empty {A = A})
  unfolding empty
  empty-IsValid = record { fits = omega arith; in_range = λ h. h }

  pub to_list-empty : to_list empty ≡ []
  unfolding to_list empty
  to_list-empty = refl
