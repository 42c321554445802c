-- ===== src/Registar/Auth/Base32.antt =====
-- encoding/base32 with the Crockford alphabet, as internal/registar/auth/key.go uses it: groups of
-- five bytes, eight symbols each, and the symbols read back. Text is a list of bytes.
pub mod Laws
use Prim.Native.Char.{code}
use Prim.Native.String.{String}
use star.Prelude.{
  ℕ, zero, suc, ◌+◌, ◌-◌, ◌*◌, ◌/◌, ◌%◌, Bool, true, not, ◌&&◌, ◌||◌, Option, none, some, List, [],
  ◌∷◌, ◌++◌, get_or, length, take, ltb, leb, ◌==◌, if◌then◌else◌,
}

-- The bytes of an ASCII literal.
abbrev pub codes : String → List ℕ
codes String.[] = []
codes (String.◌∷◌ c s) = code c ∷ codes s

-- `base32.NewEncoding("0123456789ABCDEFGHJKMNPQRSTVWXYZ")`
abbrev pub alphabet : List ℕ
alphabet = codes "0123456789ABCDEFGHJKMNPQRSTVWXYZ"

unfoldable pub symbol : ℕ → ℕ
symbol d = get_or alphabet d 0

index_from : ℕ → ℕ → List ℕ → Option ℕ
index_from i c [] = none
index_from i c (a ∷ as') = if c == a then some i else index_from (suc i) c as'

-- The decode map of the encoding: the value of a symbol.
pub digit : ℕ → Option ℕ
unfolding index_from
digit c = index_from 0 c alphabet

-- Five bytes in eight groups of five bits.
pub data Bytes5 : Type 0 where
  bytes5 : ℕ → ℕ → ℕ → ℕ → ℕ → Bytes5

pub data Digits8 : Type 0 where
  digits8 : ℕ → ℕ → ℕ → ℕ → ℕ → ℕ → ℕ → ℕ → Digits8

unfoldable pub split : Bytes5 → Digits8
split (bytes5 a b c d e) =
    digits8 (a / 8) (a % 8 * 4 + b / 64) (b / 2 % 32) (b % 2 * 16 + c / 16) (c % 16 * 2 + d / 128)
      (d / 4 % 32) (d % 4 * 8 + e / 32) (e % 32)

pub join : Digits8 → Bytes5
join (digits8 p q r s t u v w) =
    bytes5 (p * 8 + q / 4) (q % 4 * 64 + r * 2 + s / 16) (s % 16 * 16 + t / 2)
      (t % 2 * 128 + u * 4 + v / 8) (v % 8 * 32 + w)

unfoldable pub symbols : Digits8 → List ℕ
symbols (digits8 p q r s t u v w) =
    symbol p ∷ symbol q ∷ symbol r ∷ symbol s ∷ symbol t ∷ symbol u ∷ symbol v ∷ symbol w ∷ []

-- `Encode` of five bytes.
unfoldable pub encode : Bytes5 → List ℕ
encode b = symbols (split b)

-- `Decode` drops line ends before it reads the symbols.
unfoldable pub strip_newlines : List ℕ → List ℕ
strip_newlines [] = []
strip_newlines (c ∷ cs) =
    let rest = strip_newlines cs in if c == 10 || c == 13 then rest else c ∷ rest

all_padding : List ℕ → Bool
all_padding [] = true
all_padding (c ∷ cs) = c == b'=' && all_padding cs

-- The last block, with the digits read so far; `none` is a `CorruptInputError`. The key's text
-- has one block at most, so what follows a full block is not read.
pub block : List ℕ → List ℕ → Option (List ℕ)
unfolding all_padding
block ds [] = if length ds == 8 then some ds else none
block ds (c ∷ src) =
    let j = length ds in
    let rest : Option (List ℕ) = elim (digit c) [
      | none ↦ none
      | some d ↦ block (ds ++ d ∷ []) src
    ] in
    if j == 8
    then some ds
    else if c == b'=' && leb 2 j && ltb (length src) 8
    then if ltb (length src + j) 7 || not (all_padding (take (7 - j) src)) || j == 3 || j == 6
      then none
      else some ds
    else rest

-- How many bytes a block of digits holds.
byte_count : ℕ → ℕ
byte_count n = n * 5 / 8

digits_of : List ℕ → Digits8
digits_of ds =
    digits8 (get_or ds 0 0) (get_or ds 1 0) (get_or ds 2 0) (get_or ds 3 0) (get_or ds 4 0)
      (get_or ds 5 0) (get_or ds 6 0) (get_or ds 7 0)

unfoldable pub to_list : Bytes5 → List ℕ
to_list (bytes5 a b c d e) = a ∷ b ∷ c ∷ d ∷ e ∷ []

pub bytes_of : List ℕ → List ℕ
unfolding byte_count digits_of to_list join
bytes_of ds = take (byte_count (length ds)) (to_list (join (digits_of ds)))

-- `Decode` of a text of at most one block: the bytes, or `none` for corrupt input.
unfoldable pub decode : List ℕ → Option (List ℕ)
unfolding bytes_of
decode [] = some []
decode (c ∷ cs) = elim (block [] (c ∷ cs)) [ none ↦ none | some ds ↦ some (bytes_of ds) ]
