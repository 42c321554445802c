-- ===== src/Command/Registar/Laws.antt =====
-- Which configurations `parseConfig` of cmd/registar/main.go accepts, and with which secrets.
use star.Prelude.{
  ℕ, ◌≡◌, inl, inr, refl, sym, ap, ◌∙◌, true, false, ◌&&◌, Bool-cases, some, List, [], ◌∷◌, ◌++◌,
  arith,
}
use star.Command.Registar.{
  Config, is_space, trim_left, trim_right, trim_space, choose, is_blank, parse_config,
}

abbrev pub AllSpace : List ℕ → Type 0
AllSpace [] = Unit
AllSpace (c ∷ cs) = (is_space c ≡ true) × AllSpace cs

-- No white space at either end; not empty.
abbrev pub IsTrimmed : List ℕ → Type 0
IsTrimmed [] = ⊥
IsTrimmed (c ∷ cs) = (is_space c ≡ false) × (trim_right (c ∷ cs) ≡ c ∷ cs)

trim_left-append : (l s : List ℕ) → AllSpace l → trim_left (l ++ s) ≡ trim_left s
unfolding trim_left
trim_left-append [] s h = refl
trim_left-append (c ∷ l) s h = ground (arith, h.0, trim_left-append l s h.1)

trim_right_space : (r : List ℕ) → AllSpace r → trim_right r ≡ []
unfolding trim_right
trim_right_space [] h = refl
trim_right_space (c ∷ r) h = ground (arith, h.0, trim_right_space r h.1)

trim_right-append : (s r : List ℕ) → AllSpace r → trim_right (s ++ r) ≡ trim_right s
unfolding trim_right
trim_right-append [] r h = trim_right_space r h
trim_right-append (c ∷ s) r h = ground (arith, trim_right-append s r h)

trim_left_kept : (c : ℕ) (s : List ℕ) → is_space c ≡ false → trim_left (c ∷ s) ≡ c ∷ s
unfolding trim_left
trim_left_kept c s h = ground (arith, h)

pub trim_space-append :
    (l s r : List ℕ) → AllSpace l → IsTrimmed s → AllSpace r → trim_space (l ++ (s ++ r)) ≡ s
unfolding trim_space
trim_space-append l [] r hl h hr = absurd h
trim_space-append l (c ∷ s) r hl h hr =
    let text : List ℕ = l ++ ((c ∷ s) ++ r) in
    let left : trim_left text ≡ (c ∷ s) ++ r =
      trim_left-append l ((c ∷ s) ++ r) hl ∙ trim_left_kept c (s ++ r) h.0 in
    let right : trim_right ((c ∷ s) ++ r) ≡ c ∷ s = trim_right-append (c ∷ s) r hr ∙ h.1 in
    ap trim_right left ∙ right

choose_kept : (s text : List ℕ) → IsTrimmed s → choose s text ≡ s
unfolding choose
choose_kept [] text h = absurd h
choose_kept (c ∷ s) text h = refl

-- A secret from a file, whatever white space is around it there.
pub secret-parse_config :
    (env conf : Config) (l s r : List ℕ)
    → AllSpace l
    → IsTrimmed s
    → AllSpace r
    → env.secret_from_file ≡ l ++ (s ++ r)
    → parse_config (some env) ≡ some conf
    → conf.secret ≡ s
unfolding parse_config
secret-parse_config env conf l s r hl h hr file e =
    let trimmed = ap trim_space file ∙ trim_space-append l s r hl h hr in
    let admin_blank =
      is_blank (trim_space env.admin_secret_from_file) && is_blank (trim_space env.admin_secret) in
    elim (Bool-cases admin_blank) [
      | inl q ↦ absurd (ground (arith, q, e))
      | inr q ↦
          let same : choose (trim_space env.secret_from_file) (trim_space env.secret)
              ≡ conf.secret =
            ground (arith, q, e) in
          sym same
          ∙ ap (λ t. choose t (trim_space env.secret)) trimmed
          ∙ choose_kept s (trim_space env.secret) h
    ]
