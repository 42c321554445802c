-- ===== src/Registar/Client/Tls/Laws.antt =====
-- Who can connect to whom, and how long: `tlsConfig` of internal/registar/client.go with the certificates of
-- internal/registar/ca.go.
use star.Prelude.{
  ℕ, ◌+◌, ◌≤◌, ◌≡◌, ◌≢◌, ◌↔◌, inl, inr, sym, ap, ◌∙◌, true, false, Bool-cases, Option, Option-cases,
  none, some, List, [], ◌∷◌, arith,
}
use star.Prelude.Dict.{get}
use star.Registar.Ca.{session_ca, new_session_cert}
use star.Registar.Ca.Certs.{SessionCa, Request, Cert, hour, seven_days, new_session_ca, new_cert}
use star.Registar.Ca.Laws.{new_session_cert_ca, new_session_cert_keeps}
use star.Registar.Client.Tls.{
  Usage, client_auth, server_auth, X509, TlsConfig, tls_config, intermediates,
  verify_peer_certificate, parse_all, passes, accepts_server, accepts_client, handshake,
}

abbrev pub Trusts : SessionCa → ℕ → Cert → Type 0
Trusts root now c =
    (c.issuer ≡ root)
    × (root.not_before ≤ now)
    × (now ≤ root.not_after)
    × (c.not_before ≤ now)
    × (now ≤ c.not_after)

-- What the code relies on: a certificate is read as it was written, and `Verify` without intermediates
-- accepts it if the root has signed it and both are valid at the time.
pub record IsX509 (x : X509) : Type 0 where
  pub parse-raw : (c : Cert) → x.parse_certificate (x.raw c) ≡ some c
  pub verify_iff :
      (root : SessionCa) (usage : Usage) (now : ℕ) (c : Cert)
      → (x.verify root [] usage now c ≡ true) ↔ Trusts root now c

module _ (x : X509) (good : IsX509 x) where
  accepts_server_lem :
      (c : TlsConfig) (now : ℕ) (cert : Cert)
      → accepts_server x c now (x.raw cert ∷ []) ≡ x.verify c.root_pool [] server_auth now cert
  unfolding accepts_server parse_all verify_peer_certificate intermediates passes
  accepts_server_lem c now cert =
      let p = good.parse-raw cert in
      elim (Bool-cases (x.verify c.root_pool [] server_auth now cert)) [
        | inl q ↦ ground (arith, p, q)
        | inr q ↦ ground (arith, p, q)
      ]

  accepts_client_lem :
      (c : TlsConfig) (now : ℕ) (cert : Cert)
      → accepts_client x c now (x.raw cert ∷ []) ≡ x.verify c.root_pool [] client_auth now cert
  unfolding accepts_client parse_all verify_peer_certificate passes
  accepts_client_lem c now cert =
      let p = good.parse-raw cert in
      elim (Bool-cases (x.verify c.root_pool [] client_auth now cert)) [
        | inl q ↦ ground (arith, p, q)
        | inr q ↦ ground (arith, p, q)
      ]

  -- Two players connect exactly if each has a certificate of the other's authority that is valid, as
  -- the authority is.
  handshake_iff :
      (ca ca' : SessionCa) (cert cert' : Cert) (now : ℕ)
      → (handshake x (tls_config x ca cert) (tls_config x ca' cert') now ≡ true)
        ↔ (Trusts ca now cert' × Trusts ca' now cert)
  unfolding handshake tls_config
  handshake_iff ca ca' cert cert' now =
      let client = tls_config x ca cert in
      let server = tls_config x ca' cert' in
      let s = accepts_server_lem client now cert' in
      let c = accepts_client_lem server now cert in
      let vs = good.verify_iff ca server_auth now cert' in
      let vc = good.verify_iff ca' client_auth now cert in
      (
        λ h. (vs.0 (ground (arith, s, h)), vc.0 (ground (arith, s, c, h))),
        λ t. let a = vs.1 t.0 in let b = vc.1 t.1 in ground (arith, s, c, a, b),
      )

new_cert_lem :
    (now : ℕ) (serial : Option ℕ) (ca : SessionCa) (req : Request) (cert : Cert)
    → new_cert now serial ca req ≡ some cert
    → (cert.issuer ≡ ca) × (cert.not_before ≡ now) × (cert.not_after ≡ now + seven_days)
unfolding new_cert
new_cert_lem now none ca req cert h = absurd (ground (arith, h))
new_cert_lem now (some serial) ca req cert h = elim (Bool-cases req.signature_ok) [
  | inl q ↦ ground (arith, q, h)
  | inr q ↦ absurd (ground (arith, q, h))
]

module _ {Key : Type 0} (dec : Discrete Key) where
  first_ca :
      (sign : SessionCa → Request → Option Cert) (sessions : List (Key × SessionCa)) (key : Key)
      (req : Request) (fresh ca : SessionCa) (cert : Cert)
      → get dec key sessions ≡ none
      → (new_session_cert dec sign sessions key req (some fresh)).1 ≡ some (ca, cert)
      → fresh ≡ ca
  unfolding new_session_cert session_ca
  first_ca sign sessions key req fresh ca cert q h = elim (Option-cases (sign fresh req)) [
    | inl z ↦ absurd (ground (arith, q, z, h))
    | inr (c, z) ↦ ground (arith, q, z, h)
  ]

new_session_ca_lem :
    (now : ℕ) (serial key : Option ℕ) (ca : SessionCa)
    → new_session_ca now serial key ≡ some ca
    → (ca.not_before ≡ now) × (ca.not_after ≡ now + hour)
unfolding new_session_ca
new_session_ca_lem now none key ca h = absurd (ground (arith, h))
new_session_ca_lem now (some serial) none ca h = absurd (ground (arith, h))
new_session_ca_lem now (some serial) (some key) ca h = ground (arith, h)

-- Certificates that one authority made at `t` and `t'`, itself made at `t`.
within_hour :
    (ca : SessionCa) (cert : Cert) (t t' now : ℕ)
    → cert.issuer ≡ ca
    → ca.not_before ≡ t
    → ca.not_after ≡ t + hour
    → cert.not_before ≡ t'
    → cert.not_after ≡ t' + seven_days
    → t ≤ t'
    → t' ≤ now
    → Trusts ca now cert ↔ (now ≤ t + hour)
within_hour ca cert t t' now i b a cb c l m = (
  λ h. omega (arith, h, a),
  λ h. (
    i,
    omega (arith, b, l, m),
    omega (arith, a, h),
    omega (arith, cb, m),
    omega (arith, c, h, l),
  ),
)

module _ (x : X509) (good : IsX509 x) {Key : Type 0} (dec : Discrete Key) where
  -- Two players of a game, the first of which makes the registar make its authority at `t`, while the
  -- second gets its certificate at `t'`: they connect, whoever dials, until an hour after `t`, and not
  -- later.
  pub handshake-new_session_cert :
      (sessions : List (Key × SessionCa)) (key : Key) (req req' : Request)
      (serial serial' ca_serial private : Option ℕ) (fresh ca ca' : SessionCa)
      (fresh' : Option SessionCa) (cert cert' : Cert) (t t' now : ℕ)
      → get dec key sessions ≡ none
      → new_session_ca t ca_serial private ≡ some fresh
      → (new_session_cert dec (new_cert t serial) sessions key req (some fresh)).1 ≡ some (ca, cert)
      → (new_session_cert dec
          (new_cert t' serial')
          (new_session_cert dec (new_cert t serial) sessions key req (some fresh)).0
          key
          req'
          fresh').1
        ≡ some (ca', cert')
      → t ≤ t'
      → t' ≤ now
      → ((handshake x (tls_config x ca cert) (tls_config x ca' cert') now ≡ true)
          ↔ (now ≤ t + hour))
        × ((handshake x (tls_config x ca' cert') (tls_config x ca cert) now ≡ true)
            ↔ (now ≤ t + hour))
  handshake-new_session_cert sessions key req req' serial serial' ca_serial private fresh ca ca'
        fresh' cert cert' t t' now none_yet made h h' l m =
      let between = (new_session_cert dec (new_cert t serial) sessions key req (some fresh)).0 in
      let one =
        new_session_cert_ca dec (new_cert t serial) sessions key req (some fresh) ca cert h in
      let two =
        new_session_cert_ca dec (new_cert t' serial') between key req' fresh' ca' cert' h' in
      let kept =
        new_session_cert_keeps dec (new_cert t' serial') between key key req' fresh' ca one.0 in
      let same : ca ≡ ca' = ground (arith, two.0, kept) in
      let is_fresh = first_ca dec (new_cert t serial) sessions key req fresh ca cert none_yet h in
      let made_at = new_session_ca_lem t ca_serial private fresh made in
      let c = new_cert_lem t serial ca req cert one.1 in
      let c' = new_cert_lem t' serial' ca' req' cert' two.1 in
      let from : ca.not_before ≡ t = ap (λ a. a.not_before) (sym is_fresh) ∙ made_at.0 in
      let until : ca.not_after ≡ t + hour = ap (λ a. a.not_after) (sym is_fresh) ∙ made_at.1 in
      let from' : ca'.not_before ≡ t = ap (λ a. a.not_before) (sym same) ∙ from in
      let until' : ca'.not_after ≡ t + hour = ap (λ a. a.not_after) (sym same) ∙ until in
      let second = within_hour ca cert' t t' now (c'.0 ∙ sym same) from until c'.1 c'.2 l m in
      let first =
        within_hour ca' cert t t now (c.0 ∙ same) from' until' c.1 c.2 (omega arith)
          (omega (arith, l, m)) in
      let dials = handshake_iff x good ca ca' cert cert' now in
      let dialed = handshake_iff x good ca' ca cert' cert now in
      (
        (λ z. second.0 (dials.0 z).0, λ z. dials.1 (second.1 z, first.1 z)),
        (λ z. first.0 (dialed.0 z).0, λ z. dialed.1 (first.1 z, second.1 z)),
      )

  issuer_lem :
      (t : ℕ) (serial : Option ℕ) (sessions : List (Key × SessionCa)) (key : Key) (req : Request)
      (fresh : Option SessionCa) (ca : SessionCa) (cert : Cert)
      → (new_session_cert dec (new_cert t serial) sessions key req fresh).1 ≡ some (ca, cert)
      → cert.issuer ≡ ca
  issuer_lem t serial sessions key req fresh ca cert h =
      (new_cert_lem t serial ca req cert
        (new_session_cert_ca dec (new_cert t serial) sessions key req fresh ca cert h).1).0

  -- Players of games whose authorities differ never connect, whatever the tables of the registar when
  -- they got their certificates, at whatever times.
  pub handshake-other_game :
      (sessions sessions' : List (Key × SessionCa)) (key key' : Key) (req req' : Request)
      (serial serial' : Option ℕ) (fresh fresh' : Option SessionCa) (ca ca' : SessionCa)
      (cert cert' : Cert) (t t' now : ℕ)
      → (new_session_cert dec (new_cert t serial) sessions key req fresh).1 ≡ some (ca, cert)
      → (new_session_cert dec (new_cert t' serial') sessions' key' req' fresh').1
        ≡ some (ca', cert')
      → ca ≢ ca'
      → handshake x (tls_config x ca cert) (tls_config x ca' cert') now ≡ false
  handshake-other_game sessions sessions' key key' req req' serial serial' fresh fresh' ca ca' cert
        cert' t t' now h h' other =
      elim (Bool-cases (handshake x (tls_config x ca cert) (tls_config x ca' cert') now)) [
        | inr q ↦ q
        | inl q ↦
            let trusted = (handshake_iff x good ca ca' cert cert' now).0 q in
            let issuer = issuer_lem t' serial' sessions' key' req' fresh' ca' cert' h' in
            absurd (other (sym trusted.0.0 ∙ issuer))
      ]
