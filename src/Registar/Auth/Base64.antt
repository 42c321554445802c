-- ===== src/Registar/Auth/Base64.antt =====
-- encoding/base64 with the URL alphabet and padding, as internal/registar/auth/token.go uses it.
pub mod Laws
use star.Prelude.{
  ℕ, zero, suc, ◌+◌, ◌*◌, ◌/◌, ◌%◌, ◌<◌, Option, none, some, List, [], ◌∷◌, ◌++◌, get_or, ◌==◌,
  if◌then◌else◌,
}
use star.Registar.Auth.Base32.{codes, strip_newlines}

-- `base64.URLEncoding`
abbrev pub alphabet : List ℕ
alphabet = codes "ABCDEFGHIJKLMNOPQRSTUVWXYZabcdefghijklmnopqrstuvwxyz0123456789-_"

unfoldable pub symbol : ℕ → ℕ
symbol d = get_or alphabet d 0

index_from : ℕ → ℕ → List ℕ → Option ℕ
index_from i c [] = none
index_from i c (a ∷ as') = if c == a then some i else index_from (suc i) c as'

pub digit : ℕ → Option ℕ
unfolding index_from
digit c = index_from 0 c alphabet

-- Three bytes in four symbols; a rest of one or two bytes is padded.
unfoldable pub encode : List ℕ → List ℕ
encode [] = []
encode (a ∷ []) = symbol (a / 4) ∷ symbol (a % 4 * 16) ∷ b'=' ∷ b'=' ∷ []
encode (a ∷ b ∷ []) =
    symbol (a / 4) ∷ symbol (a % 4 * 16 + b / 16) ∷ symbol (b % 16 * 4) ∷ b'=' ∷ []
encode (a ∷ b ∷ c ∷ rest) =
    symbol (a / 4)
    ∷ symbol (a % 4 * 16 + b / 16)
    ∷ symbol (b % 16 * 4 + c / 64)
    ∷ symbol (c % 64)
    ∷ encode rest

infixl 5 ◌>>=◌
abbrev pub ◌>>=◌ {ℓ κ} : {A : Type ℓ} {B : Type κ} → Option A → (A → Option B) → Option B
none >>= f = none
some a >>= f = f a

-- One byte of two symbols, two bytes of three, three bytes of four.
one_byte : ℕ → ℕ → Option (List ℕ)
one_byte p q = do d ← digit p; e ← digit q; some ((d * 4 + e / 16) ∷ [])

two_bytes : ℕ → ℕ → ℕ → Option (List ℕ)
two_bytes p q r = do
  d ← digit p
  e ← digit q
  f ← digit r
  some ((d * 4 + e / 16) ∷ (e % 16 * 16 + f / 4) ∷ [])

three_bytes : ℕ → ℕ → ℕ → ℕ → Option (List ℕ)
three_bytes p q r s = do
  d ← digit p
  e ← digit q
  f ← digit r
  g ← digit s
  some ((d * 4 + e / 16) ∷ (e % 16 * 16 + f / 4) ∷ (f % 4 * 64 + g) ∷ [])

-- The last quantum, with its padding; nothing may follow it.
padded : ℕ → ℕ → ℕ → List ℕ → Option (List ℕ)
padded p q r (x ∷ xs) = none
padded p q r [] = if r == b'=' then one_byte p q else two_bytes p q r

followed : Option (List ℕ) → Option (List ℕ) → Option (List ℕ)
followed quantum more = do bytes ← quantum; tail ← more; some (bytes ++ tail)

-- `Decode` after the line ends are dropped; `none` is a `CorruptInputError`.
pub quanta : List ℕ → Option (List ℕ)
unfolding followed padded one_byte two_bytes three_bytes
quanta [] = some []
quanta (p ∷ q ∷ r ∷ s ∷ rest) =
    if s == b'=' then padded p q r rest else followed (three_bytes p q r s) (quanta rest)
quanta _ = none

-- `DecodeString`: line ends are skipped.
unfoldable pub decode : List ℕ → Option (List ℕ)
decode text = quanta (strip_newlines text)
