-- ===== src/Tests/Auth.antt =====
-- Keys and tokens of internal/registar/auth at concrete values.
use star.Prelude.{
  ℕ, zero, suc, ◌<◌, ◌%◌, ◌≡◌, ◌↔◌, List, ◌∷◌, arith, length, get_or, replicate, length-replicate,
}
use native.Mathlib.Nat.{mod-lt}
use star.Registar.Auth.Base32.{bytes5, codes, encode}
use star.Registar.Auth.Base32.Laws.{IsBytes}
use star.Registar.Auth.Key.{Key, ok, map_text, unmarshal_text, marshal_text}
use star.Registar.Auth.Key.Laws.{IsShaped, unmarshal_text_iff, unmarshal-marshal_text}
use star.Registar.Auth.Base64.Laws.{AllBytes}
use star.Registar.Auth.Token.{Mac, Token, string, parse_token, new_token}
use star.Registar.Auth.Token.Laws.{IsToken, new_token-IsToken}
use star.Http.Authenticate.{authenticate, handled, authenticate_iff}

abbrev pub game : Key
game = bytes5 1 35 69 103 137

abbrev typed : List ℕ
typed = codes "o4hl-cs89"

abbrev zero_key : Key
zero_key = bytes5 0 0 0 0 0

unmarshal_text_iff_example :
    (unmarshal_text typed ≡ ok game)
    ↔ (IsShaped typed × IsBytes game × (map_text typed ≡ encode game))
unmarshal_text_iff_example = unmarshal_text_iff typed game

pub game-IsBytes : IsBytes game
game-IsBytes = omega arith

unmarshal-marshal_text_example : unmarshal_text (marshal_text game) ≡ ok game
unmarshal-marshal_text_example = unmarshal-marshal_text game game-IsBytes

-- The message's first byte and the length of the secret stand for a sum.
abbrev sample_sum : List ℕ → List ℕ → List ℕ
sample_sum secret message = get_or message 0 0 % 256 ∷ replicate 31 (length secret % 256)

pub replicate-AllBytes : (x n : ℕ) → x < 256 → AllBytes (replicate n x)
replicate-AllBytes x zero h = tt
replicate-AllBytes x (suc n) h = (h, replicate-AllBytes x n h)

abbrev pub sample_mac : Mac
sample_mac = record {
  sum = sample_sum;
  length-sum = λ secret message. length-replicate {A = ℕ} 32 0;
  sum-AllBytes = λ secret message. (
    mod-lt (get_or message 0 0) {m = 256} (omega arith),
    replicate-AllBytes (length secret % 256) 31 (mod-lt (length secret) {m = 256} (omega arith)),
  );
}

abbrev secret : List ℕ
secret = codes "secret"

abbrev sample_token : Token
sample_token = new_token sample_mac game secret

sample_token-IsToken : IsToken sample_token
sample_token-IsToken = new_token-IsToken sample_mac game secret game-IsBytes

authenticate_iff_example :
    (authenticate sample_mac secret (string sample_token) ≡ handled game)
    ↔ (parse_token (string sample_token) ≡ ok (new_token sample_mac game secret))
authenticate_iff_example = authenticate_iff sample_mac secret (string sample_token) game
