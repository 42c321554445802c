-- ===== src/Platform/Queue.antt =====
-- internal/platform/queue.go: a FIFO queue in a ring buffer that grows.
-- `none` is a Go panic: an index out of range, or a remainder by zero.
pub mod Contents
pub mod Pop
pub mod Push
pub mod Runs
use star.Prelude.{
  ℕ, zero, suc, ◌+◌, ◌-◌, ◌*◌, ◌%◌, Bool, true, false, Option, none, some, List, [], length,
  get_elem?, set, replicate, ltb, ◌==◌, if◌then◌else◌,
}

-- `cap(buf)` is the length of the slice, which `make` gives no spare room.
pub record Queue {ℓ} (A : Type ℓ) : Type ℓ where
  pub buf : List A
  pub head : ℕ
  pub len : ℕ

infixl 5 ◌>>=◌
abbrev pub ◌>>=◌ {ℓ κ} : {A : Type ℓ} {B : Type κ} → Option A → (A → Option B) → Option B
none >>= f = none
some a >>= f = f a

abbrev pub rem : ℕ → ℕ → Option ℕ
rem a n = if n == 0 then none else some (a % n)

module _ {ℓ} {A : Type ℓ} where
  abbrev pub store : List A → ℕ → A → Option (List A)
  store buf i v = if ltb i (length buf) then some (set buf i v) else none

  -- The value of type `Queue[T]` that no code has touched.
  pub empty : Queue A
  empty = record { buf = []; head = 0; len = 0 }

  -- The loop of `grow` from `i` on, with `n` rounds left.
  pub copy_items : Queue A → List A → ℕ → ℕ → Option (List A)
  copy_items rb buf i zero = some buf
  copy_items rb buf i (suc n) = do
    pos ← rem (rb.head + i) (length rb.buf)
    item ← get_elem? rb.buf pos
    buf' ← store buf i item
    copy_items rb buf' (i + 1) n

  pub put_back : Queue A → A → Option (Queue A)
  put_back rb item = do
    pos ← rem (rb.head + rb.len) (length rb.buf)
    buf ← store rb.buf pos item
    some (record { buf = buf; head = rb.head; len = rb.len + 1 })

module _ {ℓ} {A : Type ℓ} (zero_value : A) where
  pub peek : Queue A → Option (A × Bool)
  peek rb =
      if rb.len == 0
      then some (zero_value, false)
      else do item ← get_elem? rb.buf rb.head; some (item, true)

  pub pop : Queue A → Option (Queue A × A × Bool)
  pop rb = if rb.len == 0 then some (rb, zero_value, false) else do
    item ← get_elem? rb.buf rb.head
    buf ← store rb.buf rb.head zero_value
    head ← rem (rb.head + 1) (length buf)
    some (record { buf = buf; head = head; len = rb.len - 1 }, item, true)

  pub grow : Queue A → Option (Queue A)
  grow rb = do
    buf ← copy_items rb (replicate ((length rb.buf + 1) * 2) zero_value) 0 rb.len
    some (record { buf = buf; head = 0; len = rb.len })

  pub push : Queue A → A → Option (Queue A)
  push rb item = do rb' ← if rb.len == length rb.buf then grow rb else some rb; put_back rb' item
