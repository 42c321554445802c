-- ===== src/Text/Decimal.antt =====
-- `strconv.Itoa` of a number that is not negative, and the digits that `strconv.Atoi` reads.
use star.Prelude.{
  ℕ, zero, suc, ◌+◌, ◌-◌, ◌*◌, ◌/◌, ◌%◌, ◌||◌, Option, none, some, List, [], ◌∷◌, ◌++◌, ltb,
  if◌then◌else◌,
}

-- The digits of a number, with as many rounds as it takes; it has fewer digits than its value.
unfoldable pub digits : ℕ → ℕ → List ℕ
digits zero n = []
digits (suc rounds) n =
    let higher = digits rounds (n / 10) ++ (b'0' + n % 10) ∷ [] in
    if ltb n 10 then (b'0' + n) ∷ [] else higher

unfoldable pub itoa : ℕ → List ℕ
unfolding digits
itoa n = digits (n + 1) n

-- The value of a text of digits after a value of those in front.
unfoldable pub read_digits : List ℕ → ℕ → Option ℕ
read_digits [] n = some n
read_digits (c ∷ s) n =
    if ltb c b'0' || ltb b'9' c then none else read_digits s (n * 10 + (c - b'0'))
