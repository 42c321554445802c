-- ===== src/Command/Flags.antt =====
-- `FlagSet.Parse` of Go's flag package with `ExitOnError`, as cmd/star/config.go uses it: each flag
-- takes a value.
use star.Prelude.{ℕ, Bool, ◌||◌, Option, none, some, List, [], ◌∷◌, ◌==◌, if◌then◌else◌}
use star.Http.Hosts.{same_text}

-- An argument by itself: a flag may have its value behind a sign of equality.
pub data Argument : Type 0 where
  positional terminator bad_syntax : Argument
  flag : List ℕ → Option (List ℕ) → Argument

-- The name up to the first sign of equality, and what follows it.
unfoldable pub cut : List ℕ → List ℕ × Option (List ℕ)
cut [] = ([], none)
cut (c ∷ cs) = let rest = cut cs in if c == b'=' then ([], some cs) else (c ∷ rest.0, rest.1)

-- A name is not empty, and starts neither with a dash nor with a sign of equality.
unfoldable pub named : List ℕ → Argument
unfolding cut
named [] = bad_syntax
named (c ∷ cs) =
    let rest = cut cs in if c == b'-' || c == b'=' then bad_syntax else flag (c ∷ rest.0) rest.1

-- A text with two dashes at least.
unfoldable pub long : List ℕ → Argument
unfolding named
long [] = terminator
long (c ∷ cs) = named (c ∷ cs)

unfoldable pub split_argument : List ℕ → Argument
unfolding named long
split_argument [] = positional
split_argument (c ∷ []) = positional
split_argument (c ∷ d ∷ cs) =
    if c == b'-' then (if d == b'-' then long cs else named (d ∷ cs)) else positional

-- The process ends with a code, or the flags are set and these arguments are left.
pub data Parsed (S : Type 0) : Type 0 where
  exits : ℕ → Parsed S
  parsed : S → List (List ℕ) → Parsed S

-- "help" and "h"
unfoldable pub is_help : List ℕ → Bool
unfolding same_text
is_help name = same_text name (b'h' ∷ b'e' ∷ b'l' ∷ b'p' ∷ []) || same_text name (b'h' ∷ [])

module _ {S : Type 0} (lookup : List ℕ → Option (List ℕ → S → Option S)) where
  -- `pending` sets the flag that waits for its value.
  unfoldable pub parse_args : Option (List ℕ → S → Option S) → S → List (List ℕ) → Parsed S
  unfolding split_argument is_help
  parse_args none s [] = parsed s []
  parse_args (some set) s [] = exits 2
  parse_args (some set) s (v ∷ args) = elim (set v s) [
    | none ↦ exits 2
    | some t ↦ parse_args none t args
  ]
  parse_args none s (a ∷ args) = elim (split_argument a) [
    | positional ↦ parsed s (a ∷ args)
    | terminator ↦ parsed s args
    | bad_syntax ↦ exits 2
    | flag name v ↦ elim (lookup name) [
      | none ↦ if is_help name then exits 0 else exits 2
      | some set ↦ elim v [
        | none ↦ parse_args (some set) s args
        | some text ↦ elim (set text s) [ none ↦ exits 2 | some t ↦ parse_args none t args ]
      ]
    ]
  ]
