-- ===== src/Registar/Ca/Laws.antt =====
-- All players of a game get certificates of one authority (internal/registar/ca.go).
use star.Prelude.{Option, none, some, List, ◌≡◌, inl, inr, arith, Option-cases}
use star.Prelude.Dict.{get, get-put}
use star.Registar.Ca.{session_ca, new_session_cert}

module _ {Key CA Csr Cert : Type 0} (dec : Discrete Key) (sign : CA → Csr → Option Cert) where
  session_ca-get :
      (sessions after : List (Key × CA)) (key : Key) (fresh : Option CA) (ca : CA)
      → session_ca dec sessions key fresh ≡ some (after, ca)
      → get dec key after ≡ some ca
  unfolding session_ca
  session_ca-get sessions after key none ca h = ground arith
  session_ca-get sessions after key (some sca) ca h =
      ground (arith, get-put dec key key sca sessions)

  -- A certificate comes from the authority that the key has from then on.
  pub new_session_cert_ca :
      (sessions : List (Key × CA)) (key : Key) (csr : Csr) (fresh : Option CA) (ca : CA)
      (cert : Cert)
      → (new_session_cert dec sign sessions key csr fresh).1 ≡ some (ca, cert)
      → (get dec key (new_session_cert dec sign sessions key csr fresh).0 ≡ some ca)
        × (sign ca csr ≡ some cert)
  unfolding new_session_cert
  new_session_cert_ca sessions key csr fresh ca cert h =
      elim (Option-cases (session_ca dec sessions key fresh)) [
        | inl bad ↦ absurd (ground arith)
        | inr ((after, ca'), good) ↦
            ground (arith, session_ca-get sessions after key fresh ca' good)
      ]

  session_ca_keeps :
      (sessions after : List (Key × CA)) (key other : Key) (fresh : Option CA) (ca used : CA)
      → get dec key sessions ≡ some ca
      → session_ca dec sessions other fresh ≡ some (after, used)
      → get dec key after ≡ some ca
  unfolding session_ca
  session_ca_keeps sessions after key other none ca used h e = ground arith
  session_ca_keeps sessions after key other (some sca) ca used h e =
      ground (arith, get-put dec other key sca sessions)

  -- A key keeps its authority, whatever requests are signed for it or for other keys.
  pub new_session_cert_keeps :
      (sessions : List (Key × CA)) (key other : Key) (csr : Csr) (fresh : Option CA) (ca : CA)
      → get dec key sessions ≡ some ca
      → get dec key (new_session_cert dec sign sessions other csr fresh).0 ≡ some ca
  unfolding new_session_cert
  new_session_cert_keeps sessions key other csr fresh ca h =
      elim (Option-cases (session_ca dec sessions other fresh)) [
        | inl bad ↦ ground arith
        | inr ((after, used), good) ↦
            ground (arith, session_ca_keeps sessions after key other fresh ca used h good)
      ]

  -- Two players of one game are signed by the same authority.
  same_ca :
      (sessions : List (Key × CA)) (key : Key) (csr csr' : Csr) (fresh fresh' : Option CA)
      (ca ca' : CA) (cert cert' : Cert)
      → (new_session_cert dec sign sessions key csr fresh).1 ≡ some (ca, cert)
      → (new_session_cert dec sign
          (new_session_cert dec sign sessions key csr fresh).0
          key
          csr'
          fresh').1
        ≡ some (ca', cert')
      → ca ≡ ca'
  same_ca sessions key csr csr' fresh fresh' ca ca' cert cert' h h' =
      let between = (new_session_cert dec sign sessions key csr fresh).0 in
      let held = (new_session_cert_ca sessions key csr fresh ca cert h).0 in
      let kept = new_session_cert_keeps between key key csr' fresh' ca held in
      let held' = (new_session_cert_ca between key csr' fresh' ca' cert' h').0 in cc
