-- ===== src/Command/Star.antt =====
-- `main` of cmd/star/main.go: what it starts, with which certificates, key and token.
pub mod Access
pub mod Laws
pub mod Started
use star.Prelude.{
  ℕ, Bool, true, false, ◌&&◌, ◌||◌, Option, none, some, List, [], ◌∷◌, ◌==◌, if◌then◌else◌,
}
use star.Http.Hosts.{same_text}
use star.Registar.Auth.Base32.{bytes5, codes}
use star.Registar.Auth.Key.{Key, ok, err, unmarshal_text, is_zero}
use star.Registar.Auth.Token.{Mac, Token, new_token}
use star.Text.Atoi.{ℤ, pos}
use star.Command.Flags.{Parsed, exits, parsed, parse_args}
use star.Command.Config.{
  CommandConfig, ConfigError, HostConfig, Parsers, PeerConfig, Result, after_command, after_host,
  after_peer, check_command, command_defaults, command_flags, config, fails, host_flags,
  missing_command, missing_game_key, missing_registar_url, parse_command, parse_host, parse_peer,
  peer_flags, quits, read_key, set_game_key, set_game_port, set_key, set_level, set_listen_port,
  set_port, set_registar, stardew_port, zero_key,
}

module _ (x : Parsers) where
  unfoldable pub check_block : List ℕ × List ℕ → Option x.Cert
  check_block block =
      if same_text block.0 (codes "CERTIFICATE") then x.parse_certificate block.1 else none

  unfoldable pub load_ca_cert : List ℕ → Option x.Cert
  unfolding check_block
  load_ca_cert path = elim (x.read_file path) [
    | none ↦ none
    | some contents ↦ elim (x.decode_pem contents) [ none ↦ none | some block ↦ check_block block ]
  ]

  -- The one certificate of `RootCAs`, or `some none` for those of the system; `none` is an error.
  unfoldable pub load_tls_config : List ℕ → Option (Option x.Cert)
  unfolding load_ca_cert
  load_tls_config [] = some none
  load_tls_config (c ∷ path) = elim (load_ca_cert (c ∷ path)) [
    | none ↦ none
    | some ca ↦ some (some ca)
  ]

  -- What `main` starts, or the code that it exits with.
  pub data Action : Type 0 where
    runs_web : Action
    ends : ℕ → Action
    runs_host : Option x.Cert → CommandConfig x → HostConfig → Action
    runs_peer : Option x.Cert → CommandConfig x → PeerConfig → Action

  module _ (fresh : Key) where
    unfoldable pub start_host : Option x.Cert → CommandConfig x → List (List ℕ) → Action
    unfolding parse_host
    start_host roots c args = elim (parse_host x fresh args) [
      | quits code ↦ ends code
      | fails e ↦ ends 2
      | config h ↦ runs_host roots c h
    ]

    unfoldable pub start_peer : Option x.Cert → CommandConfig x → List (List ℕ) → Action
    unfolding parse_peer
    start_peer roots c args = elim (parse_peer x args) [
      | quits code ↦ ends code
      | fails e ↦ ends 2
      | config p ↦ runs_peer roots c p
    ]

    -- The switch of `main`, on the arguments from the command on.
    unfoldable pub dispatch : Option x.Cert → CommandConfig x → List (List ℕ) → Action
    unfolding start_host start_peer
    dispatch roots c [] = ends 2
    dispatch roots c (name ∷ args) =
        if same_text name (codes "host")
        then start_host roots c args
        else if same_text name (codes "peer")
        then start_peer roots c args
        else ends 2

    unfoldable pub start : Result (CommandConfig x) → Action
    unfolding dispatch load_tls_config
    start (quits code) = ends code
    start (fails e) = ends 2
    start (config c) = elim (load_tls_config c.ca_cert) [
      | none ↦ ends 2
      | some roots ↦ dispatch roots c c.args
    ]

    unfoldable pub main : List (List ℕ) → Action
    unfolding parse_command start
    main [] = runs_web
    main (arg ∷ args) = start (parse_command x (arg ∷ args))

  -- The token of `runHost` and `runPeer`; `fresh` is a key of `NewKey`.
  unfoldable pub token_of : Mac → Key → Action → Option Token
  token_of m fresh runs_web = none
  token_of m fresh (ends code) = none
  token_of m fresh (runs_host roots c h) =
      if is_zero h.game_key
      then some (new_token m fresh c.secret)
      else some (new_token m h.game_key c.secret)
  token_of m fresh (runs_peer roots c p) = some (new_token m p.key c.secret)
