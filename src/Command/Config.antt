-- ===== src/Command/Config.antt =====
-- The flags of cmd/star, cmd/star/config.go. net/url, strconv and log/slog parse their values as `Parsers`
-- does, which also has the file system, encoding/pem and crypto/x509.
pub mod Exits
use star.Prelude.{ℕ, Option, none, some, List, [], ◌∷◌, if◌then◌else◌}
use star.Http.Hosts.{same_text}
use star.Registar.Auth.Base32.{bytes5, codes}
use star.Registar.Auth.Key.{Key, ok, err, unmarshal_text, is_zero}
use star.Text.Atoi.{ℤ, pos}
use star.Command.Flags.{Parsed, exits, parsed, parse_args}

pub record Parsers : Type 1 where
  pub Url : Type 0
  pub Level : Type 0
  pub parse_url : List ℕ → Option Url
  pub parse_int : List ℕ → Option ℤ
  pub parse_level : List ℕ → Option Level
  pub info : Level
  pub Cert : Type 0
  -- `os.ReadFile`, and `pem.Decode` with the type and the bytes of the first block.
  pub read_file : List ℕ → Option (List ℕ)
  pub decode_pem : List ℕ → Option (List ℕ × List ℕ)
  pub parse_certificate : List ℕ → Option Cert

abbrev pub zero_key : Key
zero_key = bytes5 0 0 0 0 0

pub data ConfigError : Type 0 where
  missing_command missing_registar_url missing_game_key : ConfigError

-- How a `Parse` ends: the flag set exits the process, or it returns an error or nil.
pub data Result (C : Type 0) : Type 0 where
  quits : ℕ → Result C
  fails : ConfigError → Result C
  config : C → Result C

-- A flag whose value is a game key.
unfoldable pub read_key : List ℕ → Option Key
read_key text = elim (unmarshal_text text) [ ok k ↦ some k | err e ↦ none ]

pub record HostConfig : Type 0 where
  pub game_port : ℤ
  pub game_key : Key

pub record PeerConfig : Type 0 where
  pub key : Key
  pub game_listen_port : ℤ

abbrev pub stardew_port : ℤ
stardew_port = pos 24642

module _ (x : Parsers) where
  -- `FS.Args()` is `args`.
  pub record CommandConfig : Type 0 where
    pub args : List (List ℕ)
    pub command : List ℕ
    pub secret : List ℕ
    pub registar : Option x.Url
    pub port : ℤ
    pub ca_cert : List ℕ
    pub log_level : x.Level

  unfoldable pub command_defaults : CommandConfig
  command_defaults = record {
    args = [];
    command = [];
    secret = [];
    registar = none;
    port = pos 0;
    ca_cert = [];
    log_level = x.info;
  }

  unfoldable pub set_registar : List ℕ → CommandConfig → Option CommandConfig
  set_registar text c = elim (x.parse_url text) [
    | none ↦ none
    | some u ↦ some (record c { registar = some u })
  ]

  unfoldable pub set_port : List ℕ → CommandConfig → Option CommandConfig
  set_port text c = elim (x.parse_int text) [ none ↦ none | some n ↦ some (record c { port = n }) ]

  unfoldable pub set_level : List ℕ → CommandConfig → Option CommandConfig
  set_level text c = elim (x.parse_level text) [
    | none ↦ none
    | some l ↦ some (record c { log_level = l })
  ]

  unfoldable pub command_flags : List ℕ → Option (List ℕ → CommandConfig → Option CommandConfig)
  unfolding set_registar set_port set_level
  command_flags name =
      if same_text name (codes "secret")
      then some (λ text c. some (record c { secret = text }))
      else if same_text name (codes "registar")
      then some set_registar
      else if same_text name (codes "port")
      then some set_port
      else if same_text name (codes "ca-cert")
      then some (λ text c. some (record c { ca_cert = text }))
      else if same_text name (codes "log-level")
      then some set_level
      else none

  -- After the flags.
  unfoldable pub check_command : CommandConfig → List (List ℕ) → Result CommandConfig
  check_command c [] = fails missing_command
  check_command c (name ∷ rest) = elim c.registar [
    | none ↦ fails missing_registar_url
    | some u ↦ config (record c { command = name; args = name ∷ rest })
  ]

  unfoldable pub after_command : Parsed CommandConfig → Result CommandConfig
  unfolding check_command
  after_command (exits code) = quits code
  after_command (parsed c rest) = check_command c rest

  -- `commandConfig.Parse`
  unfoldable pub parse_command : List (List ℕ) → Result CommandConfig
  unfolding command_flags after_command command_defaults
  parse_command args = after_command (parse_args command_flags none command_defaults args)

  unfoldable pub set_game_port : List ℕ → HostConfig → Option HostConfig
  set_game_port text c = elim (x.parse_int text) [
    | none ↦ none
    | some v ↦ some (record c { game_port = v })
  ]

  unfoldable pub set_game_key : List ℕ → HostConfig → Option HostConfig
  set_game_key text c = elim (read_key text) [
    | none ↦ none
    | some v ↦ some (record c { game_key = v })
  ]

  unfoldable pub host_flags : List ℕ → Option (List ℕ → HostConfig → Option HostConfig)
  unfolding set_game_port set_game_key
  host_flags name =
      if same_text name (codes "port")
      then some set_game_port
      else if same_text name (codes "key")
      then some set_game_key
      else none

  -- `fresh` is the key that `NewKey` makes.
  unfoldable pub after_host : Key → Parsed HostConfig → Result HostConfig
  after_host fresh (exits code) = quits code
  after_host fresh (parsed c rest) =
      if is_zero c.game_key then config (record c { game_key = fresh }) else config c

  -- `hostConfig.Parse`
  unfoldable pub parse_host : Key → List (List ℕ) → Result HostConfig
  unfolding host_flags after_host
  parse_host fresh args =
      after_host fresh
        (parse_args host_flags none (record { game_port = stardew_port; game_key = zero_key }) args)

  unfoldable pub set_key : List ℕ → PeerConfig → Option PeerConfig
  set_key text c = elim (read_key text) [ none ↦ none | some v ↦ some (record c { key = v }) ]

  unfoldable pub set_listen_port : List ℕ → PeerConfig → Option PeerConfig
  set_listen_port text c = elim (x.parse_int text) [
    | none ↦ none
    | some v ↦ some (record c { game_listen_port = v })
  ]

  unfoldable pub peer_flags : List ℕ → Option (List ℕ → PeerConfig → Option PeerConfig)
  unfolding set_key set_listen_port
  peer_flags name =
      if same_text name (codes "key")
      then some set_key
      else if same_text name (codes "listen-port")
      then some set_listen_port
      else none

  unfoldable pub after_peer : Parsed PeerConfig → Result PeerConfig
  after_peer (exits code) = quits code
  after_peer (parsed c rest) = if is_zero c.key then fails missing_game_key else config c

  -- `peerConfig.Parse`
  unfoldable pub parse_peer : List (List ℕ) → Result PeerConfig
  unfolding peer_flags after_peer
  parse_peer args =
      after_peer
        (parse_args peer_flags none (record { key = zero_key; game_listen_port = pos 0 }) args)
