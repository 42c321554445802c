-- ===== src/Registar/Ca.antt =====
-- `Authority` of internal/registar/ca.go: one certificate authority for each game. The making of
-- authorities and certificates (crypto/x509) enters as `fresh`, what `NewSessionCA` returns, and
-- `sign`, what `NewCert` and `ParseCertificate` make of a request; `none` is their error.
pub mod Certs
pub mod Laws
use star.Prelude.{Option, none, some, List, ◌≡◌}
use star.Prelude.Dict.{get, put, delete}

module _ {Key CA : Type 0} (dec : Discrete Key) where
  -- The session's authority, a new one if the key has none; it is stored before it signs.
  unfoldable pub session_ca : List (Key × CA) → Key → Option CA → Option (List (Key × CA) × CA)
  session_ca sessions key fresh = elim (get dec key sessions) [
    | some ca ↦ some (sessions, ca)
    | none ↦ elim fresh [ none ↦ none | some sca ↦ some (put dec key sca sessions, sca) ]
  ]

  unfoldable pub remove_session_ca : List (Key × CA) → Key → List (Key × CA)
  remove_session_ca sessions key = delete dec key sessions

module _ {Key CA Csr Cert : Type 0} (dec : Discrete Key) (sign : CA → Csr → Option Cert) where
  -- `NewSessionCert`: the new table, and the authority with the certificate.
  unfoldable pub new_session_cert :
      List (Key × CA) → Key → Csr → Option CA → List (Key × CA) × Option (CA × Cert)
  new_session_cert sessions key csr fresh = elim (session_ca dec sessions key fresh) [
    | none ↦ (sessions, none)
    | some (sessions', ca) ↦ elim (sign ca csr) [
      | none ↦ (sessions', none)
      | some cert ↦ (sessions', some (ca, cert))
    ]
  ]
