-- ===== src/Web/Sse/History.antt =====
-- The ring buffer of internal/webserver/sse.go seen as the list of its last lines.
use native.Mathlib.Nat.{mod-eq_of_lt, mod-eq-sub-mod, mod-lt}
use star.Prelude.{
  ℕ, zero, suc, ◌+◌, ◌-◌, ◌%◌, ◌≤◌, ◌<◌, ◌≡◌, ◌≢◌, refl, sym, ◌∙◌, none, some, List, [], ◌∷◌, ◌++◌,
  length, length-append, length-set, length-replicate, get_or, get_or-set_self, get_or-set_ne, set,
  drop, ltb, ◌==◌, if◌then◌else◌, arith, dec_lt,
}
use star.Web.Sse.{RingBuffer, new_ring_buffer}

-- One turn of the ring at most.
wrap : (a n : ℕ) → a < n + n → a % n ≡ (if ltb a n then a else a - n)
wrap a n h = elim (dec_lt a n) [
  | yes p ↦ rw (mod-eq_of_lt p) (ground arith)
  | no p ↦
      rw
        (
          mod-eq-sub-mod {n = a} {m = n} (omega arith),
          mod-eq_of_lt {n = a - n} {m = n} (omega arith),
        )
        (ground arith)
]

-- The place of the line number `i` in a ring of `n` elements with `c` lines and its pointer at `r`.
abbrev pub place : ℕ → ℕ → ℕ → ℕ → ℕ
place n r c i = (r + n - c + i) % n

next-wrap : (n r : ℕ) → r < n → (r + 1) % n ≡ (if ltb (r + 1) n then r + 1 else 0)
next-wrap n r h = ground (arith, wrap (r + 1) n)

place-wrap :
    (n r c i : ℕ)
    → r < n
    → c ≤ n
    → i ≤ c
    → 0 < c
    → place n r c i ≡ (if ltb (r + n - c + i) n then r + n - c + i else r + n - c + i - n)
place-wrap n r c i hr hc hi pos = wrap (r + n - c + i) n (omega arith)

-- While there is room, lines keep their places, none is at the pointer, and the new one comes there.
room_keeps :
    (n r c i : ℕ)
    → r < n
    → c < n
    → i < c
    → (place n ((r + 1) % n) (c + 1) i ≡ place n r c i) × (place n r c i ≢ r)
room_keeps n r c i hr hc hi = elim (dec_lt (r + 1) n) [
  | yes low ↦ ground (
    arith,
    next-wrap n r hr,
    place-wrap n (r + 1) (c + 1) i low (omega arith) (omega arith) (omega arith),
    place-wrap n r c i hr (omega arith) (omega arith) (omega arith),
  )
  | no high ↦ ground (
    arith,
    next-wrap n r hr,
    place-wrap n 0 (c + 1) i (omega arith) (omega arith) (omega arith) (omega arith),
    place-wrap n r c i hr (omega arith) (omega arith) (omega arith),
  )
]

room_new : (n r c : ℕ) → r < n → c < n → place n ((r + 1) % n) (c + 1) c ≡ r
room_new n r c hr hc = elim (dec_lt (r + 1) n) [
  | yes low ↦ ground (
    arith,
    next-wrap n r hr,
    place-wrap n (r + 1) (c + 1) c low (omega arith) (omega arith) (omega arith),
  )
  | no high ↦ ground (
    arith,
    next-wrap n r hr,
    place-wrap n 0 (c + 1) c (omega arith) (omega arith) (omega arith) (omega arith),
  )
]

-- In a full ring the oldest line is at the pointer, and each line takes the number of the one before.
full_keeps :
    (n r i : ℕ)
    → r < n
    → suc i < n
    → (place n ((r + 1) % n) n i ≡ place n r n (suc i)) × (place n r n (suc i) ≢ r)
full_keeps n r i hr hi = elim (dec_lt (r + 1) n) [
  | yes low ↦ ground (
    arith,
    next-wrap n r hr,
    place-wrap n (r + 1) n i low (omega arith) (omega arith) (omega arith),
    place-wrap n r n (suc i) hr (omega arith) (omega arith) (omega arith),
  )
  | no high ↦ ground (
    arith,
    next-wrap n r hr,
    place-wrap n 0 n i (omega arith) (omega arith) (omega arith) (omega arith),
    place-wrap n r n (suc i) hr (omega arith) (omega arith) (omega arith),
  )
]

full_new : (n r i : ℕ) → r < n → suc i ≡ n → place n ((r + 1) % n) n i ≡ r
full_new n r i hr hi = elim (dec_lt (r + 1) n) [
  | yes low ↦ ground (
    arith,
    next-wrap n r hr,
    place-wrap n (r + 1) n i low (omega arith) (omega arith) (omega arith),
  )
  | no high ↦ ground (
    arith,
    next-wrap n r hr,
    place-wrap n 0 n i (omega arith) (omega arith) (omega arith) (omega arith),
  )
]

module _ {ℓ} {A : Type ℓ} where
  -- The buffer holds these lines, oldest first.
  pub record Holds (rb : RingBuffer A) (lines : List A) : Type ℓ where
    pub positive : 0 < rb.capacity
    pub cells_size : length rb.cells ≡ rb.capacity
    pub at_r : rb.r < rb.capacity
    pub counted : length lines ≡ rb.count
    pub count_fits : rb.count ≤ rb.capacity
    pub values :
        (i : ℕ) (a : A)
        → i < rb.count
        → get_or rb.cells (place rb.capacity rb.r rb.count i) none ≡ some (get_or lines i a)

  pub new_ring_buffer-Holds : (capacity : ℕ) → 0 < capacity → Holds (new_ring_buffer capacity) []
  unfolding new_ring_buffer
  new_ring_buffer-Holds capacity h = record {
    positive = h;
    cells_size = length-replicate capacity none;
    at_r = h;
    counted = refl;
    count_fits = omega arith;
    values = λ i a l. absurd (omega arith);
  }

  -- What is kept of the lines after another one.
  unfoldable pub push_line : ℕ → List A → A → List A
  push_line capacity lines s =
      if ltb (length lines) capacity then lines ++ s ∷ [] else drop 1 lines ++ s ∷ []

  get_or-snoc :
      (xs : List A) (y a : A) (i : ℕ)
      → get_or (xs ++ y ∷ []) i a
        ≡ (if ltb i (length xs) then get_or xs i a else if i == length xs then y else a)
  get_or-snoc [] y a zero = refl
  get_or-snoc [] y a (suc i) = ground arith
  get_or-snoc (x ∷ xs) y a zero = ground arith
  get_or-snoc (x ∷ xs) y a (suc i) = ground (arith, get_or-snoc xs y a i)

  get_or-drop : (xs : List A) (a : A) (i : ℕ) → get_or (drop 1 xs) i a ≡ get_or xs (suc i) a
  get_or-drop [] a i = refl
  get_or-drop (x ∷ xs) a i = refl

  length-drop_one : (xs : List A) → length (drop 1 xs) ≡ length xs - 1
  length-drop_one [] = omega arith
  length-drop_one (x ∷ xs) = omega arith

  -- The buffer after `add`.
  abbrev pub added : RingBuffer A → A → RingBuffer A
  added rb s = record rb {
    cells = set rb.cells rb.r (some s);
    r = (rb.r + 1) % length rb.cells;
    count = if ltb rb.count rb.capacity then rb.count + 1 else rb.count;
  }

  pub added-Holds :
      (rb : RingBuffer A) (lines : List A) (s : A)
      → Holds rb lines
      → Holds (added rb s) (push_line rb.capacity lines s)
  unfolding push_line
  added-Holds rb lines s h = elim (dec_lt rb.count rb.capacity) [
    | yes room ↦ record {
      positive = h.positive;
      cells_size = length-set rb.cells rb.r (some s) ∙ h.cells_size;
      at_r = ground (arith, h.cells_size, mod-lt (rb.r + 1) h.positive);
      counted = ground (arith, h.counted, length-append lines (s ∷ []));
      count_fits = ground arith;
      values = λ i a l. elim (dec_lt i rb.count) [
        | yes old ↦
            let kept = room_keeps rb.capacity rb.r rb.count i h.at_r room old in
            ground (
              arith,
              h.cells_size,
              h.counted,
              kept.0,
              h.values i a old,
              get_or-snoc lines s a i,
              get_or-set_ne rb.cells rb.r (place rb.capacity rb.r rb.count i) (some s) none
                  (λ e. kept.1 (sym e)),
            )
        | no last ↦
            let here : i ≡ rb.count = ground arith in
            ground (
              arith,
              h.cells_size,
              h.counted,
              room_new rb.capacity rb.r rb.count h.at_r room,
              get_or-snoc lines s a i,
              get_or-set_self rb.cells rb.r (some s) none (omega (arith, h.cells_size, h.at_r)),
            )
      ];
    }
    | no full ↦ record {
      positive = h.positive;
      cells_size = length-set rb.cells rb.r (some s) ∙ h.cells_size;
      at_r = ground (arith, h.cells_size, mod-lt (rb.r + 1) h.positive);
      counted = ground (
        arith,
        h.counted,
        h.count_fits,
        length-append (drop 1 lines) (s ∷ []),
        length-drop_one lines,
      );
      count_fits = ground (arith, h.count_fits);
      values = λ i a l.
          let all : rb.count ≡ rb.capacity = omega (arith, h.count_fits) in
          let shorter = length-drop_one lines in
          elim (dec_lt (suc i) rb.capacity) [
            | yes old ↦
                let kept = full_keeps rb.capacity rb.r i h.at_r old in
                ground (
                  arith,
                  h.cells_size,
                  h.counted,
                  all,
                  kept.0,
                  h.values (suc i) a (omega arith),
                  get_or-snoc (drop 1 lines) s a i,
                  get_or-drop lines a i,
                  shorter,
                  get_or-set_ne rb.cells rb.r (place rb.capacity rb.r rb.capacity (suc i)) (some s)
                      none (λ e. kept.1 (sym e)),
                )
            | no last ↦
                let here : suc i ≡ rb.capacity = ground arith in
                ground (
                  arith,
                  h.cells_size,
                  h.counted,
                  all,
                  full_new rb.capacity rb.r i h.at_r here,
                  get_or-snoc (drop 1 lines) s a i,
                  shorter,
                  get_or-set_self rb.cells rb.r (some s) none (omega (arith, h.cells_size, h.at_r)),
                )
          ];
    }
  ]
