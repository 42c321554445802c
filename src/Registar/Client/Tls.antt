-- ===== src/Registar/Client/Tls.antt =====
-- `tlsConfig` of internal/registar/client.go, with which players check each other, and the handshake of
-- crypto/tls as far as it uses the configuration. crypto/x509 is a parameter.
pub mod Laws
use star.Prelude.{ℕ, Bool, true, false, ◌&&◌, Option, none, some, List, [], ◌∷◌, if◌then◌else◌}
use star.Registar.Ca.Certs.{SessionCa, Cert}

pub data Usage : Type 0 where
  client_auth server_auth : Usage

-- `Certificate.Raw`, `ParseCertificate`, and whether `Verify` finds a chain from the certificate through
-- the intermediates to the one root, at a time, for a usage.
pub record X509 : Type 0 where
  pub raw : Cert → List ℕ
  pub parse_certificate : List ℕ → Option Cert
  pub verify : SessionCa → List Cert → Usage → ℕ → Cert → Bool

pub record TlsConfig : Type 0 where
  pub certificate : List (List ℕ)
  pub root_pool : SessionCa

pub data VerifyError : Type 0 where
  no_server_certificate cannot_parse cannot_verify : VerifyError

module _ (x : X509) where
  unfoldable pub tls_config : SessionCa → Cert → TlsConfig
  tls_config ca_cert cert = record { certificate = x.raw cert ∷ []; root_pool = ca_cert }

  -- The certificates that parse.
  unfoldable pub intermediates : List (List ℕ) → List Cert
  intermediates [] = []
  intermediates (b ∷ bs) =
      let rest = intermediates bs in
      elim (x.parse_certificate b) [ none ↦ rest | some c ↦ c ∷ rest ]

  -- `VerifyPeerCertificate`; `none` is nil.
  unfoldable pub verify_peer_certificate :
      TlsConfig → ℕ → List (List ℕ) → List (List Cert) → Option VerifyError
  unfolding intermediates
  verify_peer_certificate c now raw_certs (chain ∷ chains) = none
  verify_peer_certificate c now [] [] = some no_server_certificate
  verify_peer_certificate c now (b ∷ bs) [] = elim (x.parse_certificate b) [
    | none ↦ some cannot_parse
    | some leaf ↦
        if x.verify c.root_pool (intermediates bs) server_auth now leaf
        then none
        else some cannot_verify
  ]

  -- crypto/tls gives up where a certificate does not parse.
  unfoldable pub parse_all : List (List ℕ) → Option (List Cert)
  parse_all [] = some []
  parse_all (b ∷ bs) =
      let rest = parse_all bs in
      elim (x.parse_certificate b) [
        | none ↦ none
        | some c ↦ elim rest [ none ↦ none | some cs ↦ some (c ∷ cs) ]
      ]

  unfoldable pub passes : Option VerifyError → Bool
  passes none = true
  passes (some e) = false

  -- A client with `InsecureSkipVerify` leaves the check to `VerifyPeerCertificate`.
  unfoldable pub accepts_server : TlsConfig → ℕ → List (List ℕ) → Bool
  unfolding parse_all verify_peer_certificate passes
  accepts_server c now raw_certs = elim (parse_all raw_certs) [
    | none ↦ false
    | some certs ↦ passes (verify_peer_certificate c now raw_certs [])
  ]

  -- A server with `RequireAndVerifyClientCert` verifies first, and passes on the chain that it finds.
  unfoldable pub accepts_client : TlsConfig → ℕ → List (List ℕ) → Bool
  unfolding parse_all verify_peer_certificate passes
  accepts_client c now raw_certs = elim (parse_all raw_certs) [
    | none ↦ false
    | some [] ↦ false
    | some (leaf ∷ certs) ↦
        if x.verify c.root_pool certs client_auth now leaf
        then passes (verify_peer_certificate c now raw_certs ((leaf ∷ certs) ∷ []))
        else false
  ]

  unfoldable pub handshake : TlsConfig → TlsConfig → ℕ → Bool
  unfolding accepts_server accepts_client
  handshake client server now =
      accepts_server client now server.certificate && accepts_client server now client.certificate
