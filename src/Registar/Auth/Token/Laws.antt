-- ===== src/Registar/Auth/Token/Laws.antt =====
-- The tokens of internal/registar/auth/token.go: only a signed token is valid, and its text is read
-- back.
use star.Prelude.{
  ℕ, ◌≡◌, refl, sym, ap, ◌∙◌, ◌↔◌, true, List, [], ◌∷◌, ◌++◌, length, length-append, take, drop,
  take-append-drop, drop-append_length, arith,
}
use mathlib.Core.List.{append-nil}
use mathlib.Core.Path.{ap₂}
use star.Registar.Auth.Base32.{bytes5, to_list}
use star.Registar.Auth.Base32.Laws.{IsBytes}
use star.Registar.Auth.Base64.Laws.{AllBytes, decode-encode}
use star.Registar.Auth.Key.{Key, key_size, ok}
use star.Registar.Auth.Token.{
  Mac, Token, token_size, key, string, parse_token, equal, new_token, verify_token,
}

-- 37 bytes.
pub record IsToken (t : Token) : Type 0 where
  pub size : length t ≡ token_size
  pub bytes : AllBytes t

-- A token of 37 bytes is read back from its text.
pub parse_token-string : (t : Token) → IsToken t → parse_token (string t) ≡ ok t
unfolding parse_token string
parse_token-string t h = ground (arith, decode-encode t h.bytes)

pub parse_token_size : (text : List ℕ) (t : Token) → parse_token text ≡ ok t → length t ≡ token_size
unfolding parse_token
parse_token_size text t h = ground arith

equal_iff : (xs ys : List ℕ) → (equal xs ys ≡ true) ↔ (xs ≡ ys)
unfolding equal
equal_iff [] [] = (λ h. refl, λ h. refl)
equal_iff [] (y ∷ ys) = (λ h. absurd (cc), λ h. absurd (cc))
equal_iff (x ∷ xs) [] = (λ h. absurd (cc), λ h. absurd (cc))
equal_iff (x ∷ xs) (y ∷ ys) =
    (λ h. ground (arith, (equal_iff xs ys).0), λ h. ground (arith, (equal_iff xs ys).1))

take-key : (t : Token) → length t ≡ token_size → take key_size t ≡ to_list (key t)
unfolding key to_list
take-key (a ∷ b ∷ c ∷ d ∷ e ∷ rest) h = refl
take-key [] h = absurd (omega arith)
take-key _ h = absurd (omega arith)

module _ (m : Mac) where
  new_token_lem :
      (k : Key) (secret : List ℕ) → new_token m k secret ≡ to_list k ++ m.sum secret (to_list k)
  unfolding new_token
  new_token_lem k secret =
      let size = m.length-sum secret (to_list k) in
      ground (arith, append-nil (to_list k ++ m.sum secret (to_list k)))

  length-to_list : (k : Key) → length (to_list k) ≡ 5
  unfolding to_list
  length-to_list (bytes5 a b c d e) = refl

  key-to_list_append : (k : Key) (rest : List ℕ) → key (to_list k ++ rest) ≡ k
  unfolding key to_list
  key-to_list_append (bytes5 a b c d e) rest = refl

  AllBytes-append : (xs ys : List ℕ) → AllBytes xs → AllBytes ys → AllBytes (xs ++ ys)
  AllBytes-append [] ys h g = g
  AllBytes-append (x ∷ xs) ys h g = (h.0, AllBytes-append xs ys h.1 g)

  to_list-AllBytes : (k : Key) → IsBytes k → AllBytes (to_list k)
  unfolding to_list
  to_list-AllBytes (bytes5 a b c d e) h = omega arith

  -- A new token has the right size, and carries its key.
  pub new_token-IsToken : (k : Key) (secret : List ℕ) → IsBytes k → IsToken (new_token m k secret)
  new_token-IsToken k secret h =
      let signature = m.sum secret (to_list k) in
      rw (new_token_lem k secret) (record {
        size = omega (
          arith,
          length-append (to_list k) signature,
          length-to_list k,
          m.length-sum secret (to_list k),
        );
        bytes = AllBytes-append _ _ (to_list-AllBytes k h) (m.sum-AllBytes secret (to_list k));
      })

  pub key-new_token : (k : Key) (secret : List ℕ) → key (new_token m k secret) ≡ k
  key-new_token k secret = rw (new_token_lem k secret) (key-to_list_append k _)

  -- The valid tokens of the right size are those that `NewToken` makes of their key with the same
  -- secret.
  pub verify_token_iff :
      (secret : List ℕ) (t : Token)
      → length t ≡ token_size
      → (verify_token m secret t ≡ true) ↔ (t ≡ new_token m (key t) secret)
  unfolding verify_token
  verify_token_iff secret t size =
      let front = take-key t size in
      let whole = take-append-drop key_size t in
      (
        λ h.
            let signed = (equal_iff (drop key_size t) (m.sum secret (take key_size t))).0 h in
            sym whole
            ∙ ap₂ (λ (a b : List ℕ). a ++ b) front (signed ∙ ap (m.sum secret) front)
            ∙ sym (new_token_lem (key t) secret),
        λ e. (equal_iff (drop key_size t) (m.sum secret (take key_size t))).1 (
            ap (drop key_size) (e ∙ new_token_lem (key t) secret)
            ∙ drop-append_length (to_list (key t)) _ key_size (length-to_list (key t))
            ∙ ap (m.sum secret) (sym front)),
      )
