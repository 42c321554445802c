-- ===== src/Registar/Auth/Token.antt =====
-- internal/registar/auth/token.go: a key with its signature. HMAC-SHA256 (crypto/hmac and
-- crypto/sha256) is the parameter `Mac`; what is asked of it is that a sum is 32 bytes.
pub mod Laws
use star.Prelude.{
  ℕ, ◌+◌, ◌-◌, ◌≤◌, ◌≡◌, Bool, true, false, ◌&&◌, Option, none, some, List, [], ◌∷◌, ◌++◌, length,
  get_or, take, drop, replicate, leb, ◌==◌, if◌then◌else◌,
}
use star.Registar.Auth.Base32.{bytes5, to_list}
use star.Registar.Auth.Base64
use star.Registar.Auth.Base64.Laws.{AllBytes}
use star.Registar.Auth.Key.{Key, key_size, Result, ok, err, corrupt_input, invalid_token_size}

-- `hmac.New(sha256.New, secret)`, a write and `Sum(nil)`.
pub record Mac : Type 0 where
  pub sum : List ℕ → List ℕ → List ℕ
  pub length-sum : (secret message : List ℕ) → length (sum secret message) ≡ 32
  pub sum-AllBytes : (secret message : List ℕ) → AllBytes (sum secret message)

-- `Token [TokenSize]byte`, as the list of its bytes.
abbrev pub Token : Type 0
Token = List ℕ

abbrev pub token_size : ℕ
token_size = key_size + 32

-- `Token.Key`
unfoldable pub key : Token → Key
key t = bytes5 (get_or t 0 0) (get_or t 1 0) (get_or t 2 0) (get_or t 3 0) (get_or t 4 0)

-- `Token.String`, and the bytes of `MarshalText`.
pub string : Token → List ℕ
string t = Base64.encode t

-- `UnmarshalText`, and `ParseToken` of a fresh token.
pub parse_token : List ℕ → Result Token
parse_token text = elim (Base64.decode text) [
  | none ↦ err corrupt_input
  | some decoded ↦
      if length decoded == token_size then ok decoded else err (invalid_token_size (length text))
]

-- `hmac.Equal`
equal : List ℕ → List ℕ → Bool
equal [] [] = true
equal (a ∷ as') (b ∷ bs) = a == b && equal as' bs
equal _ _ = false

module _ (m : Mac) where
  -- The sum is appended in place while it fits the array behind `token`.
  pub new_token : Key → List ℕ → Token
  new_token k secret =
      let signature = m.sum secret (to_list k) in
      let used = key_size + length signature in
      if leb used token_size
      then to_list k ++ signature ++ replicate (token_size - used) 0
      else to_list k ++ replicate (token_size - key_size) 0

  pub verify_token : List ℕ → Token → Bool
  unfolding equal
  verify_token secret t = equal (drop key_size t) (m.sum secret (take key_size t))
