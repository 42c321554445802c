-- ===== src/Registar/Ca/Certs.antt =====
-- `NewSessionCA` and `NewCert` of internal/registar/ca.go: who signs a certificate, and how long it is
-- valid. Times are seconds, as in a certificate. crypto/rand enters as the serial number and the key
-- that are made, `none` where it fails; a request has its public key, and whether its signature is right.
use star.Prelude.{ℕ, ◌+◌, Bool, Option, none, some, if◌then◌else◌}

pub record SessionCa : Type 0 where
  pub serial_number : ℕ
  pub private_key : ℕ
  pub not_before : ℕ
  pub not_after : ℕ

pub record Request : Type 0 where
  pub public_key : ℕ
  pub signature_ok : Bool

pub record Cert : Type 0 where
  pub serial_number : ℕ
  pub issuer : SessionCa
  pub public_key : ℕ
  pub not_before : ℕ
  pub not_after : ℕ

abbrev pub hour : ℕ
hour = 3600

-- `AddDate(0, 0, 7)`, seven days of 24 hours.
abbrev pub seven_days : ℕ
seven_days = 604800

unfoldable pub new_session_ca : ℕ → Option ℕ → Option ℕ → Option SessionCa
new_session_ca now none key = none
new_session_ca now (some serial) none = none
new_session_ca now (some serial) (some key) =
    some (record {
      serial_number = serial;
      private_key = key;
      not_before = now;
      not_after = now + hour;
    })

unfoldable pub new_cert : ℕ → Option ℕ → SessionCa → Request → Option Cert
new_cert now none ca req = none
new_cert now (some serial) ca req =
    if req.signature_ok
    then some (record {
      serial_number = serial;
      issuer = ca;
      public_key = req.public_key;
      not_before = now;
      not_after = now + seven_days;
    })
    else none
