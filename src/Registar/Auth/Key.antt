-- ===== src/Registar/Auth/Key.antt =====
-- internal/registar/auth/key.go: the game key, its text and its binary form. A text is a list of
-- ASCII bytes; on other characters `bytes.Map` would have to decode runes, which is not modelled.
pub mod Laws
pub mod Case
use star.Prelude.{
  ℕ, ◌+◌, ◌-◌, ◌<◌, Bool, true, false, ◌&&◌, ◌||◌, Option, none, some, List, [], ◌∷◌, ◌++◌, length,
  get_or, take, drop, ltb, leb, ◌==◌, if◌then◌else◌,
}
use star.Registar.Auth.Base32.{Bytes5, bytes5, encode, decode, strip_newlines, to_list}

-- `Key [KeySize]byte`, with `KeySize = 5`.
abbrev pub Key : Type 0
Key = Bytes5

abbrev pub key_size : ℕ
key_size = 5

pub data Error : Type 0 where
  invalid_length : ℕ → Error
  invalid_key_format : Error
  corrupt_input : Error
  unable_to_scan : Error
  invalid_token_size : ℕ → Error

pub data Result {ℓ} (A : Type ℓ) : Type ℓ where
  ok : A → Result A
  err : Error → Result A

-- `unicode.ToUpper` on ASCII.
to_upper : ℕ → ℕ
to_upper c = if leb b'a' c && leb c b'z' then c - 32 else c

-- `crocfordMap`; `none` is the -1 that drops the character.
pub crocford_map : ℕ → Option ℕ
unfolding to_upper
crocford_map r =
    if r == b'-' || r == b'_'
    then none
    else if r == b'0' || r == b'o' || r == b'O'
    then some b'0'
    else if r == b'1' || r == b'l' || r == b'L'
    then some b'1'
    else some (to_upper r)

-- `bytes.Map(crocfordMap, text)`
pub map_text : List ℕ → List ℕ
map_text [] = []
map_text (r ∷ rs) =
    let rest = map_text rs in elim (crocford_map r) [ none ↦ rest | some c ↦ c ∷ rest ]

pub unmarshal_binary : List ℕ → Result Key
unmarshal_binary (a ∷ b ∷ c ∷ d ∷ e ∷ []) = ok (bytes5 a b c d e)
unmarshal_binary bytes = err (invalid_length (length bytes))

-- The text after its length is checked.
pub parse : List ℕ → Result Key
parse text = elim (decode (strip_newlines (map_text text))) [
  | none ↦ err corrupt_input
  | some bytes ↦ unmarshal_binary bytes
]

-- `text[4]` of a text of nine bytes.
unfoldable pub unmarshal_text : List ℕ → Result Key
unfolding parse
unmarshal_text text =
    if length text == 8
    then parse text
    else if length text == 9
    then if get_or text 4 0 == b'-' then parse text else err invalid_key_format
    else err (invalid_length (length text))

pub marshal_text : Key → List ℕ
marshal_text k = let encoded = encode k in take 4 encoded ++ b'-' ∷ drop 4 encoded

-- `k == (Key{})`
unfoldable pub is_zero : Key → Bool
is_zero (bytes5 a b c d e) = a == 0 && b == 0 && c == 0 && d == 0 && e == 0

-- The zero key has no bytes.
pub marshal_binary : Key → List ℕ
unfolding is_zero
marshal_binary k = if is_zero k then [] else to_list k

-- What a database column hands to `Scan`.
pub data Column : Type 0 where
  nil other : Column
  string bytes : List ℕ → Column

-- `Scan` into the key `k`.
pub scan : Key → Column → Result Key
scan k Column.nil = ok k
scan k (Column.string v) = unmarshal_text v
scan k (Column.bytes v) = unmarshal_binary v
scan k Column.other = err unable_to_scan

-- `Value`, the column that a key is stored as.
pub value : Key → Column
value k = Column.string (marshal_text k)
