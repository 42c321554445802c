-- ===== src/Text/HostPort.antt =====
-- `net.SplitHostPort` and `net.JoinHostPort`.
pub mod Laws
use star.Prelude.{
  ℕ, zero, suc, ◌+◌, ◌-◌, Bool, true, false, ◌&&◌, ◌||◌, not, Option, none, some, List, [], ◌∷◌,
  ◌++◌, length, take, drop, get_or, ltb, ◌==◌, if◌then◌else◌,
}

unfoldable pub contains : List ℕ → ℕ → Bool
contains [] c = false
contains (x ∷ s) c = x == c || contains s c

-- The place of the first such byte.
unfoldable pub index_byte : List ℕ → ℕ → Option ℕ
index_byte [] c = none
index_byte (x ∷ s) c =
    if x == c then some 0 else elim (index_byte s c) [ none ↦ none | some i ↦ some (i + 1) ]

unfoldable pub last_index_byte : List ℕ → ℕ → Option ℕ
last_index_byte [] c = none
last_index_byte (x ∷ s) c = elim (last_index_byte s c) [
  | some i ↦ some (i + 1)
  | none ↦ if x == c then some 0 else none
]

-- The end of the function: no bracket may be left from `j` and from `k` on.
unfoldable pub finish : List ℕ → ℕ → ℕ → ℕ → List ℕ → Option (List ℕ × List ℕ)
unfolding contains
finish host_port i j k host =
    if contains (drop j host_port) b'[' || contains (drop k host_port) b']'
    then none
    else some (host, drop (i + 1) host_port)

-- An error, which is `none`, comes with an empty host and port.
unfoldable pub split_host_port : List ℕ → Option (List ℕ × List ℕ)
unfolding index_byte last_index_byte finish contains
split_host_port host_port = elim (last_index_byte host_port b':') [
  | none ↦ none
  | some i ↦
      if get_or host_port 0 0 == b'['
      then elim (index_byte host_port b']') [
        | none ↦ none
        | some end ↦
            if end + 1 == i
            then finish host_port i 1 (end + 1) (take (end - 1) (drop 1 host_port))
            else none
      ]
      else if contains (take i host_port) b':'
      then none
      else finish host_port i 0 0 (take i host_port)
]

unfoldable pub join_host_port : List ℕ → List ℕ → List ℕ
unfolding contains
join_host_port host port =
    if contains host b':' then b'[' ∷ (host ++ b']' ∷ b':' ∷ port) else host ++ b':' ∷ port
