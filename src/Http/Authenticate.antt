-- ===== src/Http/Authenticate.antt =====
-- `Authenticate` of internal/platform/httpplatform/middleware.go: a request reaches the handler
-- only with a token that the secret has signed. The request enters as the token text that
-- `tokener` takes from it.
use star.Prelude.{ℕ, ◌≡◌, refl, sym, ap, ◌∙◌, ◌↔◌, ◌⊎◌, inl, inr, true, List, arith, if◌then◌else◌}
use star.Registar.Auth.Base32.Laws.{IsBytes}
use star.Registar.Auth.Key.{Key, Error, Result, ok, err}
use star.Registar.Auth.Token.{Mac, Token, key, string, parse_token, new_token, verify_token}
use star.Registar.Auth.Token.Laws.{
  parse_token-string, parse_token_size, new_token-IsToken, key-new_token, verify_token_iff,
}

-- What the middleware does: both refusals answer 401; otherwise the handler runs with the key of
-- the token in its context.
pub data Outcome : Type 0 where
  unauthorized : Error → Outcome
  invalid_token : Outcome
  handled : Key → Outcome

module _ (m : Mac) (secret : List ℕ) where
  pub authenticate : List ℕ → Outcome
  authenticate token_text = elim (parse_token token_text) [
    | err e ↦ unauthorized e
    | ok token ↦ if verify_token m secret token then handled (key token) else invalid_token
  ]

  Result-cases : (r : Result Token) → ((t : Token) × (r ≡ ok t)) ⊎ ((e : Error) × (r ≡ err e))
  Result-cases (ok t) = inl (t, refl)
  Result-cases (err e) = inr (e, refl)

  -- The handler runs with the key `k` exactly for a text that parses as the token of `k`.
  pub authenticate_iff :
      (text : List ℕ) (k : Key)
      → (authenticate text ≡ handled k) ↔ (parse_token text ≡ ok (new_token m k secret))
  unfolding authenticate
  authenticate_iff text k = (
    λ h. elim (Result-cases (parse_token text)) [
      | inl (t, e) ↦
          let valid : verify_token m secret t ≡ true = ground arith in
          let same : key t ≡ k = ground arith in
          e
          ∙ ap ok (
              (verify_token_iff m secret t (parse_token_size text t e)).0 valid
              ∙ ap (λ x. new_token m x secret) same)
      | inr (x, e) ↦ absurd (ground arith)
    ],
    λ h.
        let t = new_token m k secret in
        let own = key-new_token m k secret in
        let valid =
          (verify_token_iff m secret t (parse_token_size text t h)).1
            (ap (λ x. new_token m x secret) (sym own)) in
        ground (arith, valid, own),
  )

  -- A client that sends the text of the token of its key reaches the handler with that key.
  pub authenticate-string :
      (k : Key) → IsBytes k → authenticate (string (new_token m k secret)) ≡ handled k
  authenticate-string k h =
      (authenticate_iff (string (new_token m k secret)) k).1
        (parse_token-string (new_token m k secret) (new_token-IsToken m k secret h))
