-- ===== src/Platform/Queue/Runs.antt =====
-- Any sequence of calls of the queue of internal/platform/queue.go, against a plain FIFO list.
use star.Prelude.{◌≡◌, refl, Bool, Option, some, List, [], ◌∷◌, ◌++◌}
use star.Platform.Queue.{Queue, ◌>>=◌, empty, peek, pop, push}
use star.Platform.Queue.Contents.{IsValid, to_list, front, rest, empty-IsValid, to_list-empty}
use star.Platform.Queue.Pop.{pop_lem, peek_lem}
use star.Platform.Queue.Push.{push_lem}

pub data Call {ℓ} (A : Type ℓ) : Type ℓ where
  pushes : A → Call A
  pops peeks : Call A

module _ {ℓ} {A : Type ℓ} (zero_value : A) where
  -- What the calls return, in order; `none` is a panic.
  pub run : Queue A → List (Call A) → Option (List (A × Bool))
  run q [] = some []
  run q (pushes x ∷ cs) = do q' ← push zero_value q x; run q' cs
  run q (pops ∷ cs) = do (q', x, ok) ← pop zero_value q; outs ← run q' cs; some ((x, ok) ∷ outs)
  run q (peeks ∷ cs) = do out ← peek zero_value q; outs ← run q cs; some (out ∷ outs)

  -- The same calls on a list.
  unfoldable pub fifo : List A → List (Call A) → List (A × Bool)
  fifo xs [] = []
  fifo xs (pushes x ∷ cs) = fifo (xs ++ x ∷ []) cs
  fifo xs (pops ∷ cs) = front zero_value xs ∷ fifo (rest zero_value xs) cs
  fifo xs (peeks ∷ cs) = front zero_value xs ∷ fifo xs cs

  run-fifo :
      (q : Queue A) (cs : List (Call A))
      → IsValid q
      → run q cs ≡ some (fifo (to_list zero_value q) cs)
  unfolding run fifo
  run-fifo q [] v = refl
  run-fifo q (pushes x ∷ cs) v =
      let (q', e, v', items, grown) = push_lem zero_value q x v in
      rw (e, ← items) (run-fifo q' cs v')
  run-fifo q (pops ∷ cs) v =
      let (q', e, v', items) = pop_lem zero_value q v in rw (e, ← items, run-fifo q' cs v') refl
  run-fifo q (peeks ∷ cs) v = rw (peek_lem zero_value q v, run-fifo q cs v) refl

  -- A queue that starts from the zero value never panics, whatever calls follow, and answers
  -- each `Pop` and `Peek` as a FIFO list does.
  pub run-empty-fifo : (cs : List (Call A)) → run empty cs ≡ some (fifo [] cs)
  run-empty-fifo cs = rw (← to_list-empty zero_value) (run-fifo empty cs (empty-IsValid zero_value))
