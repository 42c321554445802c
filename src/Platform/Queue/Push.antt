-- ===== src/Platform/Queue/Push.antt =====
-- `Push` and `grow` of internal/platform/queue.go on a valid ring buffer.
use star.Prelude.{
  ℕ, zero, suc, ◌+◌, ◌*◌, ◌%◌, ◌≤◌, ◌<◌, ◌≡◌, refl, sym, ap, ◌∙◌, some, List, [], ◌∷◌, ◌++◌, arith,
  length, get_or, set, replicate, tabulate, ◌==◌, if◌then◌else◌, dec_lt, get_or-set_self,
  get_or-set_ne, length-set, length-replicate, get_elem?-eq-get_or, tabulate_ext, tabulate-suc,
}
use mathlib.Core.Path.{ap₂}
use native.Mathlib.Nat.{mod-eq_of_lt, mod-lt}
use star.Platform.Queue.{Queue, copy_items, grow, put_back, push}
use star.Platform.Queue.Contents.{IsValid, wrap_ne, item_at, to_list}

module _ {ℓ} {A : Type ℓ} (zero_value : A) where
  -- After a push into a free slot.
  appended : Queue A → A → Queue A
  appended q x = record {
    buf = set q.buf ((q.head + q.len) % length q.buf) x;
    head = q.head;
    len = q.len + 1;
  }

  appended_len : (q : Queue A) (x : A) → length (appended q x).buf ≡ length q.buf
  unfolding appended
  appended_len q x = length-set q.buf _ x

  put_back_lem :
      (q : Queue A) (x : A)
      → IsValid q
      → q.len < length q.buf
      → (put_back q x ≡ some (appended q x))
        × IsValid (appended q x)
        × (to_list zero_value (appended q x) ≡ to_list zero_value q ++ x ∷ [])
  unfolding put_back appended to_list
  put_back_lem q x v h =
      let n = length q.buf in
      let pos = (q.head + q.len) % n in
      let inside : pos < n = mod-lt (q.head + q.len) (omega arith) in
      let long = length-set q.buf pos x in
      (
        ground arith,
        record { fits = omega (arith, long); in_range = λ p. omega (arith, long) },
        ap (tabulate (item_at zero_value (appended q x))) {y = suc q.len} (omega arith)
            ∙ tabulate-suc (item_at zero_value (appended q x)) q.len
            ∙ ap₂ (λ xs y. xs ++ y ∷ [])
                (tabulate_ext (item_at zero_value (appended q x)) (item_at zero_value q) q.len
                  (λ i hi. rw long (
                    get_or-set_ne q.buf pos ((q.head + i) % n) x zero_value
                      (λ e. wrap_ne q.head i q.len n (omega arith) hi h (sym e)))))
                (rw long (get_or-set_self q.buf pos x zero_value inside)),
      )

  -- The copied prefix: what stood below `i` stays, the rounds from `i` on fetch the queue's items.
  copy_items_lem :
      (q : Queue A) (buf : List A) (i n : ℕ)
      → i + n ≤ length buf
      → 0 < length q.buf
      → (dst : List A) × (copy_items q buf i n ≡ some dst)
        × (length dst ≡ length buf)
        × ((j : ℕ) → j < i → get_or dst j zero_value ≡ get_or buf j zero_value)
        × ((j : ℕ) → i ≤ j → j < i + n → get_or dst j zero_value ≡ item_at zero_value q j)
  unfolding copy_items
  copy_items_lem q buf i zero h pos = (buf, refl, refl, λ j l. refl, λ j l m. absurd (omega arith))
  copy_items_lem q buf i (suc n) h pos =
      let x = item_at zero_value q i in
      let (dst, run, long, below, above) =
        copy_items_lem q (set buf i x) (i + 1) n (omega (arith, length-set buf i x)) pos in
      (
        dst,
        ground (
          arith,
          get_elem?-eq-get_or q.buf ((q.head + i) % length q.buf) zero_value,
          run,
          mod-lt (q.head + i) pos,
        ),
        long ∙ length-set buf i x,
        λ j l. below j (omega arith) ∙ get_or-set_ne buf i j x zero_value (omega arith),
        λ j l m. elim (dec_lt i j) [
          | yes p ↦ above j (omega arith) (omega arith)
          | no p ↦
              let e : j ≡ i = omega arith in
              rw e (below i (omega arith) ∙ get_or-set_self buf i x zero_value (omega arith))
        ],
      )

  copy_len :
      (q : Queue A) (n : ℕ)
      → q.len ≡ n
      → IsValid q
      → (dst : List A) × (copy_items q (replicate ((length q.buf + 1) * 2) zero_value) 0 q.len
          ≡ some dst)
        × (length dst ≡ (length q.buf + 1) * 2)
        × ((i : ℕ) → i < q.len → get_or dst i zero_value ≡ item_at zero_value q i)
  unfolding copy_items
  copy_len q zero e v = (
    replicate ((length q.buf + 1) * 2) zero_value,
    rw e,
    length-replicate _ zero_value,
    λ i h. absurd (omega arith),
  )
  copy_len q (suc n) e v =
      let new_buf = replicate ((length q.buf + 1) * 2) zero_value in
      let room = length-replicate ((length q.buf + 1) * 2) zero_value in
      let (dst, run, long, below, above) =
        copy_items_lem q new_buf 0 q.len (omega (arith, room)) (omega arith) in
      (dst, run, long ∙ room, λ i h. above i (omega arith) (omega arith))

  -- Growing keeps the items in order and leaves room.
  grow_lem :
      (q : Queue A)
      → IsValid q
      → (q' : Queue A) × (grow zero_value q ≡ some q')
        × IsValid q'
        × (to_list zero_value q' ≡ to_list zero_value q)
        × (length q'.buf ≡ (length q.buf + 1) * 2)
        × (q'.len ≡ q.len)
  unfolding grow to_list
  grow_lem q v =
      let (dst, run, long, items) = copy_len q q.len refl v in
      (
        record { buf = dst; head = 0; len = q.len },
        rw run,
        record { fits = omega (arith, long); in_range = λ h. h },
        tabulate_ext _ (item_at zero_value q) q.len (λ i h.
            ap (λ (k : ℕ). get_or dst k zero_value)
              (mod-eq_of_lt {n = 0 + i} {m = length dst} (omega (arith, long)) ∙ omega arith)
            ∙ items i h),
        long,
        refl,
      )

  -- The queue after a push that does not panic.
  abbrev pub Pushes : Queue A → A → Type ℓ
  Pushes q x =
      (q' : Queue A) × (push zero_value q x ≡ some q')
      × IsValid q'
      × (to_list zero_value q' ≡ to_list zero_value q ++ x ∷ [])
      × (length q'.buf ≡ (if q.len == length q.buf then (length q.buf + 1) * 2 else length q.buf))

  push_full : (q : Queue A) (x : A) → IsValid q → q.len ≡ length q.buf → Pushes q x
  unfolding push
  push_full q x v e =
      let (q', run, v', same, long, len) = grow_lem q v in
      let (put, v'', items) = put_back_lem q' x v' (omega (arith, long, len)) in
      (
        appended q' x,
        ground (arith, put, run),
        v'',
        items ∙ ap (λ xs. xs ++ x ∷ []) same,
        ground (arith, appended_len q' x, long),
      )

  push_room : (q : Queue A) (x : A) → IsValid q → q.len < length q.buf → Pushes q x
  unfolding push
  push_room q x v h =
      let (put, v', items) = put_back_lem q x v h in
      (appended q x, ground (arith, put), v', items, ground (arith, appended_len q x))

  pub push_lem : (q : Queue A) (x : A) → IsValid q → Pushes q x
  push_lem q x v = elim (dec_lt q.len (length q.buf)) [
    | yes h ↦ push_room q x v h
    | no h ↦ push_full q x v (omega arith)
  ]
