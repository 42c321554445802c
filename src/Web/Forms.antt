-- ===== src/Web/Forms.antt =====
-- internal/webserver/models.go: the three forms. A form is a function from its fields to their
-- values, empty where there is none; `none` is a body that does not parse. net/url, encoding/pem
-- and crypto/x509 are a parameter.
pub mod Laws
pub mod Shared
use star.Prelude.{
  ℕ, zero, suc, ◌+◌, Bool, true, false, ◌&&◌, ◌||◌, not, Option, none, some, List, [], ◌∷◌, ◌++◌,
  ltb, ◌==◌, if◌then◌else◌,
}
use star.Registar.Auth.Key.{Key, ok, err, unmarshal_text}
use star.Registar.Auth.Key
use star.Text.Atoi.{pos, negsuc, atoi}
use star.Http.Hosts.{same_text}

pub data Field : Type 0 where
  registar_url secret port game_port custom_game_port game_key invite_code game_listen_port : Field

abbrev pub Form : Type 0
Form = Field → List ℕ

pub data FormError : Type 0 where
  invalid_form_data failed_to_read_ca_cert invalid_ca_cert url_is_required invalid_url : FormError
  url_scheme invalid_port_number port_is_required invite_code_is_required : FormError
  invalid_game_key invalid_invite_code : Key.Error → FormError

-- What `FormFile` and `ReadAll` give.
pub data File : Type 0 where
  missing_file unreadable : File
  contents : List ℕ → File

pub record Parsers : Type 1 where
  pub Url : Type 0
  pub Cert : Type 0
  pub parse_url : List ℕ → Option Url
  pub scheme : Url → List ℕ
  -- `pem.Decode`: the type and the bytes of the first block.
  pub decode_pem : List ℕ → Option (List ℕ × List ℕ)
  pub parse_certificate : List ℕ → Option Cert

-- "CERTIFICATE", "http", "https" and "custom"
abbrev pub certificate_text : List ℕ
certificate_text = b'C' ∷ b'E' ∷ b'R' ∷ b'T' ∷ b'I' ∷ b'F' ∷ b'I' ∷ b'C' ∷ b'A' ∷ b'T' ∷ b'E' ∷ []

abbrev pub http_text : List ℕ
http_text = b'h' ∷ b't' ∷ b't' ∷ b'p' ∷ []

abbrev pub https_text : List ℕ
https_text = b'h' ∷ b't' ∷ b't' ∷ b'p' ∷ b's' ∷ []

abbrev pub custom_text : List ℕ
custom_text = b'c' ∷ b'u' ∷ b's' ∷ b't' ∷ b'o' ∷ b'm' ∷ []

-- `strconv.Atoi` and the check that follows it in each form.
unfoldable pub valid_port : List ℕ → Option ℕ
valid_port text = elim (atoi text) [
  | none ↦ none
  | some (negsuc n) ↦ none
  | some (pos p) ↦ if p == 0 || ltb 65535 p then none else some p
]

pub record HostConfig : Type 0 where
  pub game_port : ℕ
  pub game_key : Key

-- The port text of the host form.
unfoldable pub game_port_text : Form → List ℕ
game_port_text form =
    if same_text (form game_port) custom_text then form custom_game_port else form game_port

read_game_port : List ℕ → HostConfig → HostConfig × List FormError
read_game_port [] cfg = (cfg, port_is_required ∷ [])
read_game_port (c ∷ text) cfg = elim (valid_port (c ∷ text)) [
  | none ↦ (cfg, invalid_port_number ∷ [])
  | some p ↦ (record cfg { game_port = p }, [])
]

-- `fresh` is what `NewKey` would make.
read_game_key : Key → List ℕ → HostConfig → HostConfig × List FormError
read_game_key fresh [] cfg = (record cfg { game_key = fresh }, [])
read_game_key fresh (c ∷ text) cfg = elim (unmarshal_text (c ∷ text)) [
  | err e ↦ (cfg, invalid_game_key e ∷ [])
  | ok k ↦ (record cfg { game_key = k }, [])
]

-- `hostConfig.UnmarshalHTTP`
unfoldable pub unmarshal_host : Key → HostConfig → Option Form → HostConfig × List FormError
unfolding read_game_port read_game_key game_port_text
unmarshal_host fresh cfg none = (cfg, invalid_form_data ∷ [])
unmarshal_host fresh cfg (some form) =
    let (cfg', errs) = read_game_port (game_port_text form) cfg in
    let (cfg'', more) = read_game_key fresh (form game_key) cfg' in (cfg'', errs ++ more)

pub record PeerConfig : Type 0 where
  pub invite_code : Key
  pub game_listen_port : ℕ

read_invite_code : List ℕ → PeerConfig → PeerConfig × List FormError
read_invite_code [] cfg = (cfg, invite_code_is_required ∷ [])
read_invite_code (c ∷ text) cfg = elim (unmarshal_text (c ∷ text)) [
  | err e ↦ (cfg, invalid_invite_code e ∷ [])
  | ok k ↦ (record cfg { invite_code = k }, [])
]

read_listen_port : List ℕ → PeerConfig → PeerConfig × List FormError
read_listen_port [] cfg = (record cfg { game_listen_port = 0 }, [])
read_listen_port (c ∷ text) cfg = elim (valid_port (c ∷ text)) [
  | none ↦ (cfg, invalid_port_number ∷ [])
  | some p ↦ (record cfg { game_listen_port = p }, [])
]

-- `peerConfig.UnmarshalHTTP`
unfoldable pub unmarshal_peer : PeerConfig → Option Form → PeerConfig × List FormError
unfolding read_invite_code read_listen_port
unmarshal_peer cfg none = (cfg, invalid_form_data ∷ [])
unmarshal_peer cfg (some form) =
    let (cfg', errs) = read_invite_code (form invite_code) cfg in
    let (cfg'', more) = read_listen_port (form game_listen_port) cfg' in (cfg'', errs ++ more)

module _ (x : Parsers) where
  pub record SharedConfig : Type 0 where
    pub registar_url : Option x.Url
    pub secret : List ℕ
    pub ca_cert : Option x.Cert
    pub port : ℕ

  unfoldable pub parse_ca_cert : List ℕ → Option x.Cert
  parse_ca_cert bytes = elim (x.decode_pem bytes) [
    | none ↦ none
    | some (type, block) ↦
        if not (same_text type certificate_text) then none else x.parse_certificate block
  ]

  -- The field is set to nil by a certificate that does not parse.
  read_ca_cert : File → SharedConfig → SharedConfig × List FormError
  read_ca_cert missing_file cfg = (cfg, [])
  read_ca_cert unreadable cfg = (cfg, failed_to_read_ca_cert ∷ [])
  read_ca_cert (contents bytes) cfg = elim (parse_ca_cert bytes) [
    | none ↦ (record cfg { ca_cert = none }, invalid_ca_cert ∷ [])
    | some cert ↦ (record cfg { ca_cert = some cert }, [])
  ]

  read_url : List ℕ → SharedConfig → SharedConfig × List FormError
  read_url [] cfg = (cfg, url_is_required ∷ [])
  read_url (c ∷ raw) cfg = elim (x.parse_url (c ∷ raw)) [
    | none ↦ (cfg, invalid_url ∷ [])
    | some u ↦
        if not (same_text (x.scheme u) http_text) && not (same_text (x.scheme u) https_text)
        then (cfg, url_scheme ∷ [])
        else (record cfg { registar_url = some u }, [])
  ]

  read_port : List ℕ → SharedConfig → SharedConfig × List FormError
  read_port [] cfg = (cfg, [])
  read_port (c ∷ text) cfg = elim (valid_port (c ∷ text)) [
    | none ↦ (cfg, invalid_port_number ∷ [])
    | some p ↦ (record cfg { port = p }, [])
  ]

  -- `sharedConfig.UnmarshalHTTP`
  unfoldable pub unmarshal_shared :
      SharedConfig → Option Form → File → SharedConfig × List FormError
  unfolding read_ca_cert read_url read_port parse_ca_cert
  unmarshal_shared cfg none file = (cfg, invalid_form_data ∷ [])
  unmarshal_shared cfg (some form) file =
      let (with_cert, errs) = read_ca_cert file cfg in
      let (with_url, more) = read_url (form registar_url) with_cert in
      let with_secret = record with_url { secret = form secret } in
      let (all, rest) = read_port (form port) with_secret in (all, errs ++ more ++ rest)
