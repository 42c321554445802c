-- ===== src/Web/Sse.antt =====
-- internal/webserver/sse.go: the log lines that are kept and sent to the pages. A ring of
-- container/ring is the list of its values with the place of the element that the pointer is at;
-- `none` is a panic, on a ring of no elements or a value that was never set.
pub mod History
pub mod Laws
use native.Mathlib.Decide.{ℕ_discrete}
use star.Prelude.{
  ℕ, zero, suc, ◌+◌, ◌-◌, ◌%◌, Bool, true, false, Option, none, some, List, [], ◌∷◌, ◌++◌, length,
  get_or, set, replicate, ltb, ◌==◌, if◌then◌else◌,
}
use star.Prelude.Dict.{get, put, delete}

pub record RingBuffer {ℓ} (A : Type ℓ) : Type ℓ where
  pub cells : List (Option A)
  pub r : ℕ
  pub count : ℕ
  pub capacity : ℕ

module _ {ℓ} {A : Type ℓ} where
  unfoldable pub new_ring_buffer : ℕ → RingBuffer A
  new_ring_buffer capacity = record {
    cells = replicate capacity none;
    r = 0;
    count = 0;
    capacity = capacity;
  }

  pub add : RingBuffer A → A → Option (RingBuffer A)
  add rb s =
      if length rb.cells == 0
      then none
      else some (record rb {
        cells = set rb.cells rb.r (some s);
        r = (rb.r + 1) % length rb.cells;
        count = if ltb rb.count rb.capacity then rb.count + 1 else rb.count;
      })

  -- The loop of `entries` from the element at `place` on, with `n` rounds left.
  collect : List (Option A) → ℕ → ℕ → Option (List A)
  collect cells place zero = some []
  collect cells place (suc n) = elim (get_or cells place none) [
    | none ↦ none
    | some s ↦ elim (collect cells ((place + 1) % length cells) n) [
      | none ↦ none
      | some rest ↦ some (s ∷ rest)
    ]
  ]

  -- `Move(-count)` goes back along the ring.
  pub entries : RingBuffer A → Option (List A)
  unfolding collect
  entries rb =
      let n = length rb.cells in
      if n == 0 then none else collect rb.cells ((rb.r + n - rb.count % n) % n) rb.count

  unfoldable pub reset : RingBuffer A → RingBuffer A
  reset rb = record rb { cells = replicate rb.capacity none; r = 0; count = 0 }

-- `SSEHandler`: a subscriber's channel, which holds 100 lines, by its number, with the lines in it.
pub record SseHandler (Line : Type 0) : Type 0 where
  pub history : RingBuffer Line
  pub subscribers : List (ℕ × List Line)

abbrev pub channel_size : ℕ
channel_size = 100

module _ {Line : Type 0} where
  -- The sends of `Handle`; a full channel misses the line.
  send_all : Line → List (ℕ × List Line) → List (ℕ × List Line)
  send_all line [] = []
  send_all line ((ch, lines) ∷ subs) =
      let rest = send_all line subs in
      if ltb (length lines) channel_size
      then (ch, lines ++ line ∷ []) ∷ rest
      else (ch, lines) ∷ rest

  -- `Handle` of a record that the text handler makes into a line, or not.
  unfoldable pub handle : SseHandler Line → Option Line → Option (SseHandler Line)
  unfolding send_all
  handle h none = some h
  handle h (some line) = elim (add h.history line) [
    | none ↦ none
    | some history ↦ some (record { history = history; subscribers = send_all line h.subscribers })
  ]

  -- `Subscribe`, with the number of the new channel.
  unfoldable pub subscribe : SseHandler Line → ℕ → Option (SseHandler Line × List Line)
  subscribe h ch = elim (entries h.history) [
    | none ↦ none
    | some lines ↦ some (record h { subscribers = put ℕ_discrete ch [] h.subscribers }, lines)
  ]

  unfoldable pub unsubscribe : SseHandler Line → ℕ → SseHandler Line
  unsubscribe h ch = record h { subscribers = delete ℕ_discrete ch h.subscribers }

  -- `Reset`, which closes the channels.
  unfoldable pub reset_all : SseHandler Line → SseHandler Line
  reset_all h = record { history = reset h.history; subscribers = [] }
