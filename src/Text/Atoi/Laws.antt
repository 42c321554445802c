-- ===== src/Text/Atoi/Laws.antt =====
-- `strconv.Itoa` and `strconv.Atoi` agree.
use star.Prelude.{
  ap, ◌∙◌, lt→ltb, ℕ, zero, suc, ◌+◌, ◌-◌, ◌*◌, ◌/◌, ◌%◌, ◌^◌, ◌≤◌, ◌<◌, ◌≡◌, false, some, List, [],
  ◌∷◌, ◌++◌, arith, ltb, dec_lt,
}
use star.Text.Decimal.{digits, itoa, read_digits}
use star.Text.Atoi.{pos, signed, unsigned, atoi}

abbrev IsDigit : ℕ → Type 0
IsDigit c = (48 ≤ c) × (c ≤ 57)

abbrev StartsWithDigit : List ℕ → Type 0
StartsWithDigit [] = ⊥
StartsWithDigit (c ∷ s) = IsDigit c

read_digits-snoc :
    (s : List ℕ) (c a m : ℕ)
    → read_digits s a ≡ some m
    → IsDigit c
    → read_digits (s ++ c ∷ []) a ≡ some (m * 10 + (c - 48))
unfolding read_digits
read_digits-snoc [] c a m h d = ground arith
read_digits-snoc (x ∷ s) c a m h d = ground (arith, read_digits-snoc s c (a * 10 + (x - 48)) m)

last_digit : (n : ℕ) → n < 10 → read_digits ((48 + n) ∷ []) 0 ≡ some n
unfolding read_digits
last_digit n p = ground arith

not_ltb : (a b : ℕ) → ¬ (a < b) → ltb a b ≡ false
not_ltb a b h = ground arith

read_digits-digits : (rounds n : ℕ) → n < rounds → read_digits (digits rounds n) 0 ≡ some n
unfolding digits
read_digits-digits zero n h = absurd (omega arith)
read_digits-digits (suc rounds) n h = elim (dec_lt n 10) [
  | yes p ↦ rw (lt→ltb _ _ p) (last_digit n p)
  | no q ↦
      let more =
        read_digits-snoc (digits rounds (n / 10)) (48 + n % 10) 0 (n / 10)
          (read_digits-digits rounds (n / 10) (omega arith)) (omega arith) in
      rw (not_ltb n 10 q) (more ∙ ap some (omega arith))
]

append_starts : (s t : List ℕ) → StartsWithDigit s → StartsWithDigit (s ++ t)
append_starts [] t h = absurd h
append_starts (c ∷ s) t h = h

digits_starts : (rounds n : ℕ) → n < rounds → StartsWithDigit (digits rounds n)
unfolding digits
digits_starts zero n h = absurd (omega arith)
digits_starts (suc rounds) n h = elim (dec_lt n 10) [
  | yes p ↦ rw (lt→ltb _ _ p) (omega arith)
  | no q ↦ rw (not_ltb n 10 q) (
      append_starts (digits rounds (n / 10)) ((48 + n % 10) ∷ [])
        (digits_starts rounds (n / 10) (omega arith)))
]

atoi_of_digits :
    (s : List ℕ) (n : ℕ)
    → StartsWithDigit s
    → read_digits s 0 ≡ some n
    → n < 2 ^ 63
    → atoi s ≡ some (pos n)
unfolding atoi unsigned signed
atoi_of_digits [] n d h b = absurd d
atoi_of_digits (c ∷ s) n d h b = ground arith

-- A number below 2^63 that is written in decimal is read back.
pub atoi-itoa : (n : ℕ) → n < 2 ^ 63 → atoi (itoa n) ≡ some (pos n)
unfolding itoa
atoi-itoa n h =
    atoi_of_digits (digits (n + 1) n) n (digits_starts (n + 1) n (omega arith))
      (read_digits-digits (n + 1) n (omega arith)) h
