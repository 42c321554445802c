-- ===== src/Command/Star/Started.antt =====
-- What `main` of cmd/star can start at all.
use star.Prelude.{
  ℕ, ◌≡◌, ◌⊎◌, inl, inr, refl, sym, subst, false, Bool-cases, Option, Option-cases, none, some,
  List, [], ◌∷◌, arith,
}
use star.Registar.Auth.Base32.{codes}
use star.Registar.Auth.Key.{Key, is_zero}
use star.Http.Hosts.{same_text}
use star.Command.Flags.{parse_args}
use star.Command.Config.{
  Parsers, Result, quits, fails, config, CommandConfig, zero_key, stardew_port, command_defaults,
  command_flags, after_command, parse_command, parse_host, parse_peer, host_flags, peer_flags,
}
use star.Command.Star.{
  Action, runs_web, ends, runs_host, runs_peer, start, start_host, start_peer, dispatch, main,
  load_tls_config,
}
use star.Text.Atoi.{pos}
use star.Command.Config.Exits.{
  Result-cases, Ends, HasUrl, exits-parse_args, after_command-HasUrl, after_host-Ends,
  after_peer-Ends,
}

module _ (x : Parsers) (fresh : Key) where
  -- What is started has its certificates, a URL and a key that is not zero; every other end has the code 0 or 2.
  abbrev pub IsStarted : Action x → Type 0
  IsStarted runs_web = Unit
  IsStarted (ends code) = (code ≡ 0) ⊎ (code ≡ 2)
  IsStarted (runs_host roots c h) =
      (load_tls_config x c.ca_cert ≡ some roots) × HasUrl x c × (is_zero h.game_key ≡ false)
  IsStarted (runs_peer roots c p) =
      (load_tls_config x c.ca_cert ≡ some roots) × HasUrl x c × (is_zero p.key ≡ false)

  start_host-IsStarted :
      (roots : Option x.Cert) (c : CommandConfig x) (args : List (List ℕ))
      → is_zero fresh ≡ false
      → (load_tls_config x c.ca_cert ≡ some roots) × HasUrl x c
      → IsStarted (start_host x fresh roots c args)
  unfolding start_host parse_host
  start_host-IsStarted roots c args z u =
      let good =
        after_host-Ends x fresh
          (parse_args (host_flags x) none (record { game_port = stardew_port; game_key = zero_key })
            args)
          z
          (exits-parse_args (host_flags x) none
            (record { game_port = stardew_port; game_key = zero_key }) args) in
      elim (Result-cases (parse_host x fresh args)) [
        | inl (code, q) ↦
            let p : start_host x fresh roots c args ≡ ends code = ground (arith, q) in
            subst IsStarted (sym p) (subst (Ends _) q good)
        | inr (inl (e, q)) ↦
            let p : start_host x fresh roots c args ≡ ends 2 = ground (arith, q) in
            subst IsStarted (sym p) (inr refl)
        | inr (inr (h, q)) ↦
            let p : start_host x fresh roots c args ≡ runs_host roots c h = ground (arith, q) in
            subst IsStarted (sym p) (u.0, u.1, subst (Ends _) q good)
      ]

  start_peer-IsStarted :
      (roots : Option x.Cert) (c : CommandConfig x) (args : List (List ℕ))
      → (load_tls_config x c.ca_cert ≡ some roots) × HasUrl x c
      → IsStarted (start_peer x fresh roots c args)
  unfolding start_peer parse_peer
  start_peer-IsStarted roots c args u =
      let good =
        after_peer-Ends x
          (parse_args (peer_flags x) none (record { key = zero_key; game_listen_port = pos 0 })
            args)
          (exits-parse_args (peer_flags x) none
            (record { key = zero_key; game_listen_port = pos 0 }) args) in
      elim (Result-cases (parse_peer x args)) [
        | inl (code, q) ↦
            let p : start_peer x fresh roots c args ≡ ends code = ground (arith, q) in
            subst IsStarted (sym p) (subst (Ends _) q good)
        | inr (inl (e, q)) ↦
            let p : start_peer x fresh roots c args ≡ ends 2 = ground (arith, q) in
            subst IsStarted (sym p) (inr refl)
        | inr (inr (h, q)) ↦
            let p : start_peer x fresh roots c args ≡ runs_peer roots c h = ground (arith, q) in
            subst IsStarted (sym p) (u.0, u.1, subst (Ends _) q good)
      ]

  dispatch-IsStarted :
      (roots : Option x.Cert) (c : CommandConfig x) (args : List (List ℕ))
      → is_zero fresh ≡ false
      → (load_tls_config x c.ca_cert ≡ some roots) × HasUrl x c
      → IsStarted (dispatch x fresh roots c args)
  unfolding dispatch
  dispatch-IsStarted roots c [] z u = inr refl
  dispatch-IsStarted roots c (name ∷ args) z u = elim (Bool-cases (same_text name (codes "host"))) [
    | inl q ↦
        let p : dispatch x fresh roots c (name ∷ args) ≡ start_host x fresh roots c args =
          ground (arith, q) in
        subst IsStarted (sym p) (start_host-IsStarted roots c args z u)
    | inr q ↦ elim (Bool-cases (same_text name (codes "peer"))) [
      | inl y ↦
          let p : dispatch x fresh roots c (name ∷ args) ≡ start_peer x fresh roots c args =
            ground (arith, q, y) in
          subst IsStarted (sym p) (start_peer-IsStarted roots c args u)
      | inr y ↦
          let p : dispatch x fresh roots c (name ∷ args) ≡ ends 2 = ground (arith, q, y) in
          subst IsStarted (sym p) (inr refl)
    ]
  ]

  start-IsStarted :
      (r : Result (CommandConfig x))
      → is_zero fresh ≡ false
      → Ends (HasUrl x) r
      → IsStarted (start x fresh r)
  unfolding start
  start-IsStarted (quits code) z h = h
  start-IsStarted (fails e) z h = inr refl
  start-IsStarted (config c) z h = elim (Option-cases (load_tls_config x c.ca_cert)) [
    | inr (roots, q) ↦
        let p : start x fresh (config c) ≡ dispatch x fresh roots c c.args = ground (arith, q) in
        subst IsStarted (sym p) (dispatch-IsStarted roots c c.args z (q, h))
    | inl q ↦
        let p : start x fresh (config c) ≡ ends 2 = ground (arith, q) in
        subst IsStarted (sym p) (inr refl)
  ]

  -- Whatever its arguments, `main` runs a host or a peer only with a registar URL, the certificates of
  -- its option and a key that is not zero, if `NewKey` makes none that is. Otherwise, it runs the web
  -- server or exits with the code 0 or 2.
  pub main-IsStarted :
      (args : List (List ℕ)) → is_zero fresh ≡ false → IsStarted (main x fresh args)
  unfolding main parse_command
  main-IsStarted [] z = tt
  main-IsStarted (arg ∷ args) z =
      let read = parse_args (command_flags x) none (command_defaults x) (arg ∷ args) in
      start-IsStarted (after_command x read) z (
        after_command-HasUrl x read
          (exits-parse_args (command_flags x) none (command_defaults x) (arg ∷ args)))
