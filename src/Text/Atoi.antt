-- ===== src/Text/Atoi.antt =====
-- `strconv.Atoi`, for an int of 64 bits.
pub mod Laws
use star.Prelude.{
  ℕ, zero, suc, ◌+◌, ◌-◌, ◌^◌, Bool, true, false, ◌||◌, Option, none, some, List, [], ◌∷◌, ltb,
  ◌==◌, if◌then◌else◌,
}
use star.Text.Decimal.{read_digits}

-- `negsuc n` is -(n + 1).
pub data ℤ : Type 0 where
  pos : ℕ → ℤ
  negsuc : ℕ → ℤ

-- The integer of a sign and a magnitude, if an int64 holds it.
unfoldable pub signed : Bool → ℕ → Option ℤ
signed false n = if ltb n (2 ^ 63) then some (pos n) else none
signed true zero = some (pos 0)
signed true (suc n) = if ltb n (2 ^ 63) then some (negsuc n) else none

unfoldable pub unsigned : Bool → List ℕ → Option ℤ
unsigned negative [] = none
unsigned negative (c ∷ s) = elim (read_digits (c ∷ s) 0) [
  | none ↦ none
  | some n ↦ signed negative n
]

-- `none` is an error: a text that is no number, or out of range.
unfoldable pub atoi : List ℕ → Option ℤ
unfolding unsigned signed read_digits
atoi [] = none
atoi (c ∷ s) =
    if c == b'-'
    then unsigned true s
    else if c == b'+'
    then unsigned false s
    else unsigned false (c ∷ s)
