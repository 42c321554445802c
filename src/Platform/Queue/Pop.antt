-- ===== src/Platform/Queue/Pop.antt =====
-- `Pop` and `Peek` of internal/platform/queue.go on a valid ring buffer.
use star.Prelude.{
  ℕ, zero, suc, ◌+◌, ◌-◌, ◌%◌, ◌<◌, ◌≡◌, refl, sym, ap, ◌∙◌, true, false, some, [], ◌∷◌, arith,
  length, set, tabulate, get_or-set_ne, length-set, get_elem?-eq-get_or, tabulate_ext,
}
use native.Mathlib.Nat.{mod-eq_of_lt, mod-add-mod, mod-lt}
use star.Platform.Queue.{Queue, peek, pop}
use star.Platform.Queue.Contents.{IsValid, wrap_ne, item_at, to_list, front, rest}

module _ {ℓ} {A : Type ℓ} (zero_value : A) where
  -- After a pop: the slot is cleared, the head moves on.
  popped : Queue A → Queue A
  popped q = record {
    buf = set q.buf q.head zero_value;
    head = (q.head + 1) % length q.buf;
    len = q.len - 1;
  }

  item_at-popped :
      (q : Queue A)
      → IsValid q
      → (i : ℕ) → i < q.len - 1
      → item_at zero_value (popped q) i ≡ item_at zero_value q (suc i)
  unfolding popped
  item_at-popped q v i h =
      let n = length q.buf in
      let same : ((q.head + 1) % n + i) % n ≡ (q.head + suc i) % n =
        mod-add-mod (q.head + 1) n i ∙ ap (λ (k : ℕ). k % n) (omega arith) in
      let stays : (q.head + 0) % n ≡ q.head =
        ap (λ (k : ℕ). k % n) (omega arith) ∙ mod-eq_of_lt {n = q.head} {m = n} (omega arith) in
      rw (length-set q.buf q.head zero_value, same)
        (get_or-set_ne q.buf q.head ((q.head + suc i) % n) zero_value zero_value
          (λ e. wrap_ne q.head 0 (suc i) n (omega arith) (omega arith) (omega arith) (stays ∙ e)))

  popped-IsValid : (q : Queue A) → IsValid q → IsValid (popped q)
  unfolding popped
  popped-IsValid q v = record {
    fits = omega (arith, length-set q.buf q.head zero_value);
    in_range = λ h.
        rw (length-set q.buf q.head zero_value)
          (mod-lt (q.head + 1) (rw (length-set q.buf q.head zero_value) at h));
  }

  pop_cons :
      (q : Queue A)
      → IsValid q
      → (n : ℕ) → q.len ≡ suc n
      → (pop zero_value q ≡ some (popped q, item_at zero_value q 0, true))
        × (to_list zero_value q ≡ item_at zero_value q 0 ∷ to_list zero_value (popped q))
  unfolding pop popped to_list
  pop_cons q v n e =
      let same : (q.head + 0) % length q.buf ≡ q.head =
        ap (λ (k : ℕ). k % length q.buf) (omega arith)
        ∙ mod-eq_of_lt {n = q.head} {m = length q.buf} (omega arith) in
      (
        ground (
          arith,
          get_elem?-eq-get_or q.buf q.head zero_value,
          length-set q.buf q.head zero_value,
          same,
        ),
        ap (tabulate (item_at zero_value q)) e
            ∙ ap (◌∷◌ (item_at zero_value q 0)) (
                sym (
                  tabulate_ext (item_at zero_value (popped q)) (λ i. item_at zero_value q (suc i)) n
                    (λ i h. item_at-popped q v i (omega arith)))
                ∙ ap (tabulate (item_at zero_value (popped q))) (omega arith)),
      )

  pop_nil :
      (q : Queue A)
      → q.len ≡ 0
      → (pop zero_value q ≡ some (q, zero_value, false)) × (to_list zero_value q ≡ [])
  unfolding pop to_list
  pop_nil q e = (ground arith, ap (tabulate (item_at zero_value q)) e)

  -- The queue after a pop that does not panic.
  abbrev pub Pops : Queue A → Type ℓ
  Pops q =
      (q' : Queue A) × (pop zero_value q
        ≡ some (
          q',
          (front zero_value (to_list zero_value q)).0,
          (front zero_value (to_list zero_value q)).1,
        ))
      × IsValid q'
      × (to_list zero_value q' ≡ rest zero_value (to_list zero_value q))

  pop_by_len : (q : Queue A) → IsValid q → (n : ℕ) → q.len ≡ n → Pops q
  pop_by_len q v zero e = let (run, items) = pop_nil q e in (q, rw items run, v, rw items refl)
  pop_by_len q v (suc n) e =
      let (run, items) = pop_cons q v n e in
      (popped q, rw items run, popped-IsValid q v, rw items refl)

  pub pop_lem : (q : Queue A) → IsValid q → Pops q
  pop_lem q v = pop_by_len q v q.len refl

  peek_by_len :
      (q : Queue A)
      → IsValid q
      → (n : ℕ) → q.len ≡ n
      → peek zero_value q ≡ some (front zero_value (to_list zero_value q))
  unfolding peek
  peek_by_len q v zero e = ground (arith, pop_nil q e)
  peek_by_len q v (suc n) e = ground (
    arith,
    pop_cons q v n e,
    get_elem?-eq-get_or q.buf q.head zero_value,
    mod-eq_of_lt {n = q.head + 0} {m = length q.buf} (omega arith),
  )

  pub peek_lem :
      (q : Queue A) → IsValid q → peek zero_value q ≡ some (front zero_value (to_list zero_value q))
  peek_lem q v = peek_by_len q v q.len refl
