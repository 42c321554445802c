-- ===== src/Web/Sse/Laws.antt =====
-- The history of internal/webserver/sse.go is the last lines, in order.
use native.Mathlib.Nat.{mod-eq_of_lt, mod-add-mod, mod_self, add-mod_right}
use mathlib.Core.List.{append-nil, append_assoc}
use star.Prelude.{
  subst, ℕ, zero, suc, ◌+◌, ◌-◌, ◌%◌, ◌≤◌, ◌<◌, ◌≡◌, refl, sym, ap, ◌∙◌, Option, none, some, List,
  [], ◌∷◌, ◌++◌, length, length-append, length-drop, get_or, drop, ltb, if◌then◌else◌, arith,
  dec_lt,
}
use star.Web.Sse.{RingBuffer, new_ring_buffer, add, collect, entries}
use star.Web.Sse.History.{place, Holds, added, added-Holds, new_ring_buffer-Holds, push_line}

next-place : (n r c i : ℕ) → (place n r c i + 1) % n ≡ place n r c (suc i)
next-place n r c i = mod-add-mod (r + n - c + i) n 1 ∙ ap (λ (k : ℕ). k % n) (omega arith)

back : (n r : ℕ) → r + n - 0 ≡ r + n
back n r = omega arith

the_rest : (n r : ℕ) → r + n - n + 0 ≡ r
the_rest n r = omega arith

first-place : (n r c : ℕ) → 0 < n → r < n → c ≤ n → (r + n - c % n) % n ≡ place n r c 0
first-place n r c pos hr hc = elim (dec_lt c n) [
  | yes less ↦ rw (mod-eq_of_lt less) (ap (λ (k : ℕ). k % n) (omega arith))
  | no full ↦
      let same : c ≡ n = omega arith in
      rw (same, mod_self n)
        (ap (λ (k : ℕ). k % n) (back n r)
          ∙ add-mod_right r n
          ∙ sym (ap (λ (k : ℕ). k % n) (the_rest n r)))
]

module _ {ℓ} {A : Type ℓ} where
  collect_lem :
      (cells : List (Option A)) (n r c i : ℕ) (rest : List A)
      → length cells ≡ n
      → ((j : ℕ) (a : A)
          → j < length rest
          → get_or cells (place n r c (i + j)) none ≡ some (get_or rest j a))
      → collect cells (place n r c i) (length rest) ≡ some rest
  unfolding collect
  collect_lem cells n r c i [] size h = refl
  collect_lem cells n r c i (x ∷ rest) size h =
      let here = h 0 x (omega arith) in
      let more = collect_lem cells n r c (suc i) rest size (λ j a l.
        ap (λ (k : ℕ). get_or cells (place n r c k) none) (omega arith)
        ∙ h (suc j) a (omega arith)) in
      let moved = next-place n r c i in
      let same : place n r c (i + 0) ≡ place n r c i =
        ap (λ (k : ℕ). place n r c k) (omega arith) in
      ground (arith, here, more, moved, same, size)

  add_lem :
      (rb : RingBuffer A) (lines : List A) (s : A) → Holds rb lines → add rb s ≡ some (added rb s)
  unfolding add
  add_lem rb lines s h = ground (arith, h.cells_size, h.positive)

  entries_lem : (rb : RingBuffer A) (lines : List A) → Holds rb lines → entries rb ≡ some lines
  unfolding entries
  entries_lem rb lines h =
      let start = first-place rb.capacity rb.r rb.count h.positive h.at_r h.count_fits in
      let all = collect_lem rb.cells rb.capacity rb.r rb.count 0 lines h.cells_size (λ j a l.
        ap (λ (k : ℕ). get_or rb.cells (place rb.capacity rb.r rb.count k) none) (omega arith)
        ∙ h.values j a (omega (arith, h.counted))) in
      ground (arith, h.cells_size, h.positive, start, all, h.counted)

  -- `add` of many lines.
  pub add_all : RingBuffer A → List A → Option (RingBuffer A)
  add_all rb [] = some rb
  add_all rb (s ∷ ss) = elim (add rb s) [ none ↦ none | some rb' ↦ add_all rb' ss ]

  -- The last `n` of a list.
  unfoldable pub last : ℕ → List A → List A
  last n xs = drop (length xs - n) xs

  length-last :
      (n : ℕ) (xs : List A) → length (last n xs) ≡ (if ltb (length xs) n then length xs else n)
  unfolding last
  length-last n xs = ground (arith, length-drop (length xs - n) xs)

  drop-snoc :
      (k : ℕ) (xs : List A) (s : A) → k ≤ length xs → drop k (xs ++ s ∷ []) ≡ drop k xs ++ s ∷ []
  drop-snoc zero xs s h = refl
  drop-snoc (suc k) [] s h = absurd (omega arith)
  drop-snoc (suc k) (x ∷ xs) s h = drop-snoc k xs s (omega arith)

  drop_one-drop : (k : ℕ) (xs : List A) → drop 1 (drop k xs) ≡ drop (suc k) xs
  drop_one-drop zero [] = refl
  drop_one-drop zero (x ∷ xs) = refl
  drop_one-drop (suc k) [] = refl
  drop_one-drop (suc k) (x ∷ xs) = drop_one-drop k xs

  pub drop_nil : (k : ℕ) → drop {A = A} k [] ≡ []
  drop_nil zero = refl
  drop_nil (suc k) = refl

  -- One more line: the last `n` lines of the longer list.
  pub push_line-last :
      (n : ℕ) (xs : List A) (s : A) → 0 < n → push_line n (last n xs) s ≡ last n (xs ++ s ∷ [])
  unfolding push_line last
  push_line-last n xs s pos = elim (dec_lt (length xs) n) [
    | yes short ↦
        let zero_one : length xs - n ≡ 0 = omega arith in
        let zero_two : length (xs ++ s ∷ []) - n ≡ 0 = omega (arith, length-append xs (s ∷ [])) in
        let one : drop (length xs - n) xs ≡ xs = ap (λ (k : ℕ). drop k xs) zero_one in
        let two : drop (length (xs ++ s ∷ []) - n) (xs ++ s ∷ []) ≡ xs ++ s ∷ [] =
          ap (λ (k : ℕ). drop k (xs ++ s ∷ [])) zero_two in
        ground (arith, one, two)
    | no long ↦
        let k = length xs - n in
        let one_more : length (xs ++ s ∷ []) - n ≡ suc k =
          omega (arith, length-append xs (s ∷ [])) in
        let two : drop (length (xs ++ s ∷ []) - n) (xs ++ s ∷ []) ≡ drop (suc k) (xs ++ s ∷ []) =
          ap (λ (j : ℕ). drop j (xs ++ s ∷ [])) one_more in
        ground
          (arith, two, drop-snoc (suc k) xs s (omega arith), drop_one-drop k xs, length-drop k xs)
  ]

  add_all_lem :
      (rb : RingBuffer A) (n : ℕ) (seen ss : List A)
      → rb.capacity ≡ n
      → Holds rb (last n seen)
      → (rb' : RingBuffer A) × (add_all rb ss ≡ some rb') × Holds rb' (last n (seen ++ ss))
  unfolding add_all
  add_all_lem rb n seen [] cap_n h =
      (rb, refl, subst (λ xs. Holds rb (last n xs)) (sym (append-nil seen)) h)
  add_all_lem rb n seen (s ∷ ss) cap_n h =
      let h' = added-Holds rb (last n seen) s h in
      let same : push_line rb.capacity (last n seen) s ≡ last n (seen ++ s ∷ []) =
        ap (λ (k : ℕ). push_line k (last n seen) s) cap_n
        ∙ push_line-last n seen s (omega (arith, h.positive)) in
      let (rb', run, holds) =
        add_all_lem (added rb s) n (seen ++ s ∷ []) ss cap_n
          (subst (λ xs. Holds (added rb s) xs) same h') in
      (
        rb',
        ground (arith, add_lem rb (last n seen) s h, run),
        subst (λ xs. Holds rb' (last n xs)) (append_assoc seen (s ∷ []) ss) holds,
      )

  -- A new buffer of a positive capacity takes any lines without a panic, and then has the last of them,
  -- as many as fit, in the order in which they came.
  pub entries-add_all :
      (capacity : ℕ) (lines : List A)
      → 0 < capacity
      → elim (add_all (new_ring_buffer capacity) lines) [ none ↦ none | some rb ↦ entries rb ]
        ≡ some (last capacity lines)
  unfolding last new_ring_buffer
  entries-add_all capacity lines pos =
      let (rb, run, holds) = add_all_lem (new_ring_buffer capacity) capacity [] lines refl (
        subst (Holds (new_ring_buffer capacity)) (sym (drop_nil (0 - capacity)))
          (new_ring_buffer-Holds capacity pos)) in
      ground (arith, run, entries_lem rb (last capacity lines) holds)
