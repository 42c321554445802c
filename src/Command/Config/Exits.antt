-- ===== src/Command/Config/Exits.antt =====
-- How the `Parse` methods of cmd/star/config.go end.
use star.Prelude.{
  ℕ, ◌≡◌, ◌⊎◌, inl, inr, refl, sym, subst, false, Bool-cases, Option, Option-cases, none, some,
  List, [], ◌∷◌, arith,
}
use star.Registar.Auth.Key.{Key, is_zero}
use star.Command.Flags.{
  Argument, positional, terminator, bad_syntax, flag, split_argument, is_help, Parsed, exits,
  parsed, parse_args,
}
use star.Command.Config.{
  Parsers, Result, ConfigError, missing_registar_url, missing_game_key, quits, fails, config,
  HostConfig, PeerConfig, CommandConfig, check_command, after_command, after_host, after_peer,
}

Argument-cases :
    (a : Argument)
    → (a ≡ positional)
      ⊎ ((a ≡ terminator)
          ⊎ ((a ≡ bad_syntax) ⊎ ((n : List ℕ) × (v : Option (List ℕ)) × (a ≡ flag n v))))
Argument-cases positional = inl refl
Argument-cases terminator = inr (inl refl)
Argument-cases bad_syntax = inr (inr (inl refl))
Argument-cases (flag n v) = inr (inr (inr (n, v, refl)))

-- A flag set ends the process with 0 or 2 only.
module _ {S : Type 0} (lookup : List ℕ → Option (List ℕ → S → Option S)) where
  pub exits-parse_args :
      (pending : Option (List ℕ → S → Option S)) (s : S) (args : List (List ℕ)) (code : ℕ)
      → parse_args lookup pending s args ≡ exits code
      → (code ≡ 0) ⊎ (code ≡ 2)
  unfolding parse_args
  exits-parse_args none s [] code h = absurd (ground (arith, h))
  exits-parse_args (some set) s [] code h = inr (ground (arith, h))
  exits-parse_args (some set) s (v ∷ args) code h = elim (Option-cases (set v s)) [
    | inl q ↦ inr (ground (arith, q, h))
    | inr (t, q) ↦ exits-parse_args none t args code (ground (arith, q, h))
  ]
  exits-parse_args none s (a ∷ args) code h = elim (Argument-cases (split_argument a)) [
    | inl q ↦ absurd (ground (arith, q, h))
    | inr (inl q) ↦ absurd (ground (arith, q, h))
    | inr (inr (inl q)) ↦ inr (ground (arith, q, h))
    | inr (inr (inr (n, v, q))) ↦ elim (Option-cases (lookup n)) [
      | inl z ↦ elim (Bool-cases (is_help n)) [
        | inl y ↦ inl (ground (arith, q, z, y, h))
        | inr y ↦ inr (ground (arith, q, z, y, h))
      ]
      | inr (set, z) ↦ elim (Option-cases v) [
        | inl y ↦ exits-parse_args (some set) s args code (ground (arith, q, z, y, h))
        | inr (text, y) ↦ elim (Option-cases (set text s)) [
          | inl w ↦ inr (ground (arith, q, z, y, w, h))
          | inr (t, w) ↦ exits-parse_args none t args code (ground (arith, q, z, y, w, h))
        ]
      ]
    ]
  ]

pub Result-cases :
    {C : Type 0} (r : Result C)
    → ((code : ℕ) × (r ≡ quits code))
      ⊎ (((e : ConfigError) × (r ≡ fails e)) ⊎ ((c : C) × (r ≡ config c)))
Result-cases (quits code) = inl (code, refl)
Result-cases (fails e) = inr (inl (e, refl))
Result-cases (config c) = inr (inr (c, refl))

-- What holds of a configuration that a `Parse` accepts; an exit has the code 0 or 2.
abbrev pub Ends : {C : Type 0} → (C → Type 0) → Result C → Type 0
Ends P (quits code) = (code ≡ 0) ⊎ (code ≡ 2)
Ends P (fails e) = Unit
Ends P (config c) = P c

module _ (x : Parsers) where
  abbrev pub HasUrl : CommandConfig x → Type 0
  HasUrl c = (url : x.Url) × (c.registar ≡ some url)

  check_command-HasUrl :
      (c : CommandConfig x) (rest : List (List ℕ)) → Ends HasUrl (check_command x c rest)
  unfolding check_command
  check_command-HasUrl c [] = tt
  check_command-HasUrl c (name ∷ rest) = elim (Option-cases c.registar) [
    | inl q ↦
        let p : check_command x c (name ∷ rest) ≡ fails missing_registar_url = ground (arith, q) in
        subst (Ends HasUrl) (sym p) tt
    | inr (url, q) ↦
        let p : check_command x c (name ∷ rest)
            ≡ config (record c { command = name; args = name ∷ rest }) =
          ground (arith, q) in
        subst (Ends HasUrl) (sym p) (url, q)
  ]

  pub after_command-HasUrl :
      (p : Parsed (CommandConfig x))
      → ((code : ℕ) → p ≡ exits code → (code ≡ 0) ⊎ (code ≡ 2))
      → Ends HasUrl (after_command x p)
  unfolding after_command
  after_command-HasUrl (exits code) h = h code refl
  after_command-HasUrl (parsed c rest) h = check_command-HasUrl c rest

  pub after_host-Ends :
      (fresh : Key) (p : Parsed HostConfig)
      → is_zero fresh ≡ false
      → ((code : ℕ) → p ≡ exits code → (code ≡ 0) ⊎ (code ≡ 2))
      → Ends (λ c. is_zero c.game_key ≡ false) (after_host x fresh p)
  unfolding after_host
  after_host-Ends fresh (exits code) z h = h code refl
  after_host-Ends fresh (parsed c rest) z h = elim (Bool-cases (is_zero c.game_key)) [
    | inl q ↦
        let p : after_host x fresh (parsed c rest) ≡ config (record c { game_key = fresh }) =
          ground (arith, q) in
        subst (Ends (λ c. is_zero c.game_key ≡ false)) (sym p) z
    | inr q ↦
        let p : after_host x fresh (parsed c rest) ≡ config c = ground (arith, q) in
        subst (Ends (λ c. is_zero c.game_key ≡ false)) (sym p) q
  ]

  pub after_peer-Ends :
      (p : Parsed PeerConfig)
      → ((code : ℕ) → p ≡ exits code → (code ≡ 0) ⊎ (code ≡ 2))
      → Ends (λ c. is_zero c.key ≡ false) (after_peer x p)
  unfolding after_peer
  after_peer-Ends (exits code) h = h code refl
  after_peer-Ends (parsed c rest) h = elim (Bool-cases (is_zero c.key)) [
    | inl q ↦
        let p : after_peer x (parsed c rest) ≡ fails missing_game_key = ground (arith, q) in
        subst (Ends (λ c. is_zero c.key ≡ false)) (sym p) tt
    | inr q ↦
        let p : after_peer x (parsed c rest) ≡ config c = ground (arith, q) in
        subst (Ends (λ c. is_zero c.key ≡ false)) (sym p) q
  ]
