-- ===== src/Command/Star/Laws.antt =====
-- Commands of cmd/star, from their arguments to the token that the registar gets.
use star.Prelude.{ℕ, ◌≡◌, refl, ap, ◌∙◌, false, Option, none, some, List, [], ◌∷◌, arith}
use star.Registar.Auth.Base32.{codes}
use star.Registar.Auth.Base32.Laws.{IsBytes}
use star.Registar.Auth.Key.{Key, marshal_text, is_zero}
use star.Registar.Auth.Key.Laws.{unmarshal-marshal_text}
use star.Registar.Auth.Token.{Mac, new_token}
use star.Http.Hosts.{same_text}
use star.Text.Atoi.{pos}
use star.Command.Flags.{flag, split_argument, positional, parsed, parse_args}
use star.Command.Config.{
  Parsers, config, HostConfig, PeerConfig, CommandConfig, stardew_port, zero_key, command_defaults,
  command_flags, set_registar, set_game_key, set_key, check_command, after_command, after_host,
  after_peer, parse_command, parse_host, parse_peer, host_flags, peer_flags, read_key,
}
use star.Command.Star.{start, main, dispatch, load_tls_config, start_host, start_peer, token_of}

-- A flag with its value in the next argument.
flag-parse_args :
    {S : Type 0} (lookup : List ℕ → Option (List ℕ → S → Option S)) (s t : S) (a name v : List ℕ)
    (args : List (List ℕ)) (set : List ℕ → S → Option S)
    → split_argument a ≡ flag name none
    → lookup name ≡ some set
    → set v s ≡ some t
    → parse_args lookup none s (a ∷ v ∷ args) ≡ parse_args lookup none t args
unfolding parse_args
flag-parse_args lookup s t a name v args set h k l = ground (arith, h, k, l)

positional-parse_args :
    {S : Type 0} (lookup : List ℕ → Option (List ℕ → S → Option S)) (s : S) (a : List ℕ)
    (args : List (List ℕ))
    → split_argument a ≡ positional
    → parse_args lookup none s (a ∷ args) ≡ parsed s (a ∷ args)
unfolding parse_args
positional-parse_args lookup s a args h = ground (arith, h)

read_key_lem : (k : Key) → IsBytes k → read_key (marshal_text k) ≡ some k
unfolding read_key
read_key_lem k h = ground (arith, unmarshal-marshal_text k h)

module _ (x : Parsers) where
  -- `star -secret s -registar u name`, and what follows the command.
  abbrev pub arguments : List ℕ → List ℕ → List (List ℕ) → List (List ℕ)
  arguments s u rest = codes "-secret" ∷ s ∷ codes "-registar" ∷ u ∷ rest

  abbrev pub configured : List ℕ → x.Url → List ℕ → List (List ℕ) → CommandConfig x
  configured s url name rest = record {
    args = name ∷ rest;
    command = name;
    secret = s;
    registar = some url;
    port = pos 0;
    ca_cert = [];
    log_level = x.info;
  }

  parse_command_lem :
      (s u name : List ℕ) (url : x.Url) (args : List (List ℕ))
      → split_argument name ≡ positional
      → x.parse_url u ≡ some url
      → parse_command x (arguments s u (name ∷ args)) ≡ config (configured s url name args)
  unfolding parse_command command_flags set_registar command_defaults check_command same_text
      split_argument
  parse_command_lem s u name url args p h =
      let lookup = command_flags x in
      let c0 = command_defaults x in
      let c1 : CommandConfig x = record c0 { secret = s } in
      let c2 : CommandConfig x = record c1 { registar = some url } in
      let first =
        flag-parse_args lookup c0 c1 (codes "-secret") (codes "secret") s
          (codes "-registar" ∷ u ∷ name ∷ args) (λ text c. some (record c { secret = text })) refl
          refl refl in
      let second =
        flag-parse_args lookup c1 c2 (codes "-registar") (codes "registar") u (name ∷ args)
          (set_registar x) refl refl (ground (arith, h)) in
      ap (after_command x) (first ∙ second ∙ positional-parse_args lookup c2 name args p)

  parse_host_lem :
      (fresh k : Key)
      → IsBytes k
      → is_zero k ≡ false
      → parse_host x fresh (codes "-key" ∷ marshal_text k ∷ [])
        ≡ config (record { game_port = stardew_port; game_key = k })
  unfolding parse_host host_flags set_game_key same_text split_argument parse_args after_host
  parse_host_lem fresh k h z =
      let h0 : HostConfig = record { game_port = stardew_port; game_key = zero_key } in
      let h1 : HostConfig = record { game_port = stardew_port; game_key = k } in
      let first =
        flag-parse_args (host_flags x) h0 h1 (codes "-key") (codes "key") (marshal_text k) []
          (set_game_key x) refl refl (ground (arith, read_key_lem k h)) in
      ap (after_host x fresh) first ∙ ground (arith, z)

  parse_peer_lem :
      (k : Key)
      → IsBytes k
      → is_zero k ≡ false
      → parse_peer x (codes "-key" ∷ marshal_text k ∷ [])
        ≡ config (record { key = k; game_listen_port = pos 0 })
  unfolding parse_peer peer_flags set_key same_text split_argument parse_args after_peer
  parse_peer_lem k h z =
      let p0 : PeerConfig = record { key = zero_key; game_listen_port = pos 0 } in
      let p1 : PeerConfig = record { key = k; game_listen_port = pos 0 } in
      let first =
        flag-parse_args (peer_flags x) p0 p1 (codes "-key") (codes "key") (marshal_text k) []
          (set_key x) refl refl (ground (arith, read_key_lem k h)) in
      ap (after_peer x) first ∙ ground (arith, z)

  module _ (fresh : Key) where
    start_lem :
        (s u : List ℕ) (url : x.Url) (name : List ℕ) (args : List (List ℕ))
        → split_argument name ≡ positional
        → x.parse_url u ≡ some url
        → main x fresh (arguments s u (name ∷ args))
          ≡ dispatch x fresh none (configured s url name args) (name ∷ args)
    unfolding main start load_tls_config
    start_lem s u url name args p h =
        ap (start x fresh) (parse_command_lem s u name url args p h) ∙ refl

    -- The host and the peer that are given a secret, a URL and the text of a key.
    abbrev pub host_command : List ℕ → List ℕ → Key → List (List ℕ)
    host_command s u k = arguments s u (codes "host" ∷ codes "-key" ∷ marshal_text k ∷ [])

    abbrev pub peer_command : List ℕ → List ℕ → Key → List (List ℕ)
    peer_command s u k = arguments s u (codes "peer" ∷ codes "-key" ∷ marshal_text k ∷ [])

    pub main_host :
        (m : Mac) (s u : List ℕ) (url : x.Url) (k other : Key)
        → IsBytes k
        → is_zero k ≡ false
        → x.parse_url u ≡ some url
        → token_of x m other (main x fresh (host_command s u k)) ≡ some (new_token m k s)
    unfolding dispatch start_host token_of split_argument same_text
    main_host m s u url k other b z h =
        let arrives =
          start_lem s u url (codes "host") (codes "-key" ∷ marshal_text k ∷ []) refl h in
        ap (token_of x m other) arrives ∙ ground (arith, parse_host_lem fresh k b z, z)

    pub main_peer :
        (m : Mac) (s u : List ℕ) (url : x.Url) (k other : Key)
        → IsBytes k
        → is_zero k ≡ false
        → x.parse_url u ≡ some url
        → token_of x m other (main x fresh (peer_command s u k)) ≡ some (new_token m k s)
    unfolding dispatch start_peer token_of split_argument same_text
    main_peer m s u url k other b z h =
        let arrives =
          start_lem s u url (codes "peer") (codes "-key" ∷ marshal_text k ∷ []) refl h in
        ap (token_of x m other) arrives ∙ ground (arith, parse_peer_lem k b z, z)
