-- ===== src/Tests/Tls.antt =====
-- The certificates of two players at concrete times.
use star.Prelude.{
  ℕ, ◌+◌, ◌≤◌, ◌≡◌, ◌≢◌, ◌↔◌, ℕ_discrete, refl, Bool, true, false, ◌&&◌, Option, none, some, List,
  [], ◌∷◌, leb, ◌==◌, arith,
}
use star.Prelude.Dict.{get, put}
use star.Registar.Ca.{session_ca, new_session_cert}
use star.Registar.Ca.Certs.{SessionCa, Request, Cert, hour, new_session_ca, new_cert}
use star.Registar.Client.Tls.{Usage, X509, tls_config, handshake}
use star.Registar.Client.Tls.Laws.{IsX509, handshake-new_session_cert, handshake-other_game}

-- A certificate is written as its numbers.
abbrev raw_of : Cert → List ℕ
raw_of c =
    c.serial_number ∷ c.issuer.serial_number ∷ c.issuer.private_key ∷ c.issuer.not_before
    ∷ c.issuer.not_after ∷ c.public_key ∷ c.not_before ∷ c.not_after ∷ []

abbrev parsed_of : List ℕ → Option Cert
parsed_of (s ∷ a ∷ b ∷ c ∷ d ∷ k ∷ f ∷ u ∷ []) = some (record {
  serial_number = s;
  issuer = record { serial_number = a; private_key = b; not_before = c; not_after = d };
  public_key = k;
  not_before = f;
  not_after = u;
})
parsed_of _ = none

abbrev same_issuer : SessionCa → SessionCa → Bool
same_issuer a b =
    a.serial_number == b.serial_number
    && a.private_key == b.private_key
    && a.not_before == b.not_before
    && a.not_after == b.not_after

abbrev trusts : SessionCa → List Cert → Usage → ℕ → Cert → Bool
trusts root inter usage now c =
    same_issuer c.issuer root
    && leb root.not_before now
    && leb now root.not_after
    && leb c.not_before now
    && leb now c.not_after

abbrev sample_x509 : X509
sample_x509 = record { raw = raw_of; parse_certificate = parsed_of; verify = trusts }

same_issuer_lem : (a b : SessionCa) → same_issuer a b ≡ true → a ≡ b
same_issuer_lem a b h = ground (arith, h)

same_issuer_refl : (a b : SessionCa) → a ≡ b → same_issuer a b ≡ true
same_issuer_refl a b h = ground (arith, h)

sample_x509-IsX509 : IsX509 sample_x509
sample_x509-IsX509 = record {
  parse-raw = λ c. refl;
  verify_iff = λ root usage now c. (
    λ h. (
      same_issuer_lem c.issuer root (ground (arith, h)),
      ground (arith, h),
      ground (arith, h),
      ground (arith, h),
      ground (arith, h),
    ),
    λ t. let same = same_issuer_refl c.issuer root t.0 in ground (arith, same, t),
  );
}

-- The first player's certificate is made at 100, the second's at 150.
abbrev authority : SessionCa
authority = record { serial_number = 1; private_key = 2; not_before = 100; not_after = 100 + hour }

abbrev asks : ℕ → Request
asks key = record { public_key = key; signature_ok = true }

abbrev cert_at : ℕ → ℕ → ℕ → Cert
cert_at now serial key = record {
  serial_number = serial;
  issuer = authority;
  public_key = key;
  not_before = now;
  not_after = now + 604800;
}

first_of_two :
    (new_session_cert ℕ_discrete (new_cert 100 (some 5)) [] 7 (asks 11) (some authority)).1
    ≡ some (authority, cert_at 100 5 11)
unfolding new_session_cert session_ca new_cert get put
first_of_two = ground arith

second_of_two :
    (new_session_cert ℕ_discrete
      (new_cert 150 (some 6))
      (new_session_cert ℕ_discrete (new_cert 100 (some 5)) [] 7 (asks 11) (some authority)).0
      7
      (asks 12)
      none).1
    ≡ some (authority, cert_at 150 6 12)
unfolding new_session_cert session_ca new_cert get put
second_of_two = ground arith

authority_made : new_session_ca 100 (some 1) (some 2) ≡ some authority
unfolding new_session_ca
authority_made = refl

nobody_yet : get {V = SessionCa} ℕ_discrete 7 [] ≡ none
unfolding get
nobody_yet = refl

-- A second too late.
handshake-new_session_cert_example :
    ((handshake sample_x509
          (tls_config sample_x509 authority (cert_at 100 5 11))
          (tls_config sample_x509 authority (cert_at 150 6 12))
          3701
        ≡ true)
      ↔ (3701 ≤ 100 + hour))
    × ((handshake sample_x509
            (tls_config sample_x509 authority (cert_at 150 6 12))
            (tls_config sample_x509 authority (cert_at 100 5 11))
            3701
          ≡ true)
        ↔ (3701 ≤ 100 + hour))
handshake-new_session_cert_example =
    handshake-new_session_cert sample_x509 sample_x509-IsX509 ℕ_discrete [] 7 (asks 11) (asks 12)
      (some 5) (some 6) (some 1) (some 2) authority authority authority none (cert_at 100 5 11)
      (cert_at 150 6 12) 100 150 3701 nobody_yet authority_made first_of_two second_of_two
      (omega arith) (omega arith)

-- Another game.
abbrev other_authority : SessionCa
other_authority = record {
  serial_number = 1;
  private_key = 3;
  not_before = 100;
  not_after = 100 + hour;
}

abbrev stranger : Cert
stranger = record {
  serial_number = 6;
  issuer = other_authority;
  public_key = 12;
  not_before = 150;
  not_after = 150 + 604800;
}

stranger_made :
    (new_session_cert ℕ_discrete (new_cert 150 (some 6)) [] 8 (asks 12) (some other_authority)).1
    ≡ some (other_authority, stranger)
unfolding new_session_cert session_ca new_cert get put
stranger_made = ground arith

authority_ne : authority ≢ other_authority
authority_ne e = ground (arith, e)

handshake-other_game_example :
    handshake sample_x509
      (tls_config sample_x509 authority (cert_at 100 5 11))
      (tls_config sample_x509 other_authority stranger)
      200
    ≡ false
handshake-other_game_example =
    handshake-other_game sample_x509 sample_x509-IsX509 ℕ_discrete [] [] 7 8 (asks 11) (asks 12)
      (some 5) (some 6) (some authority) (some other_authority) authority other_authority
      (cert_at 100 5 11) stranger 100 150 200 first_of_two stranger_made authority_ne
