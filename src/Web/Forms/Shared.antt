-- ===== src/Web/Forms/Shared.antt =====
-- Which setup forms internal/webserver/models.go accepts, and as what.
use star.Prelude.{
  ℕ, ◌≡◌, ◌↔◌, inl, inr, refl, ◌||◌, Option, Option-cases, none, some, List, [], ◌∷◌, arith,
  if◌then◌else◌,
}
use star.Http.Hosts.{same_text}
use star.Web.Forms.{
  Field, Form, FormError, File, Parsers, SharedConfig, parse_ca_cert, read_ca_cert, read_url,
  read_port, unmarshal_shared, http_text, https_text, missing_file, unreadable, contents,
  failed_to_read_ca_cert, invalid_ca_cert, url_is_required, invalid_url, url_scheme,
  invalid_port_number,
}
use star.Web.Forms.Laws.{port_or}

module _ (x : Parsers) where
  -- The certificate that a file leaves in place of an old one, if it is accepted.
  abbrev pub cert_or : Option x.Cert → File → Option (Option x.Cert)
  cert_or old missing_file = some old
  cert_or old unreadable = none
  cert_or old (contents bytes) = elim (parse_ca_cert x bytes) [
    | none ↦ none
    | some c ↦ some (some c)
  ]

  -- The URL of a text that is not empty and has the scheme http or https.
  abbrev pub web_url : List ℕ → Option x.Url
  web_url [] = none
  web_url (c ∷ raw) = elim (x.parse_url (c ∷ raw)) [
    | none ↦ none
    | some u ↦
        if same_text (x.scheme u) http_text || same_text (x.scheme u) https_text
        then some u
        else none
  ]

  cert_ok :
      (file : File) (cfg : SharedConfig x) (c : Option x.Cert)
      → cert_or cfg.ca_cert file ≡ some c
      → read_ca_cert x file cfg ≡ (record cfg { ca_cert = c }, [])
  unfolding read_ca_cert
  cert_ok missing_file cfg c h = ground arith
  cert_ok unreadable cfg c h = absurd (ground arith)
  cert_ok (contents bytes) cfg c h = ground arith

  cert_bad :
      (file : File) (cfg : SharedConfig x)
      → cert_or cfg.ca_cert file ≡ none
      → (e : FormError) × ((read_ca_cert x file cfg).1 ≡ e ∷ [])
  unfolding read_ca_cert
  cert_bad missing_file cfg h = absurd (ground arith)
  cert_bad unreadable cfg h = (failed_to_read_ca_cert, refl)
  cert_bad (contents bytes) cfg h = (invalid_ca_cert, ground arith)

  url_ok :
      (raw : List ℕ) (cfg : SharedConfig x) (u : x.Url)
      → web_url raw ≡ some u
      → read_url x raw cfg ≡ (record cfg { registar_url = some u }, [])
  unfolding read_url
  url_ok [] cfg u h = absurd (ground arith)
  url_ok (c ∷ raw) cfg u h = ground arith

  url_bad :
      (raw : List ℕ) (cfg : SharedConfig x)
      → web_url raw ≡ none
      → (e : FormError) × ((read_url x raw cfg).1 ≡ e ∷ [])
  unfolding read_url
  url_bad [] cfg h = (url_is_required, refl)
  url_bad (c ∷ raw) cfg h = elim (Option-cases (x.parse_url (c ∷ raw))) [
    | inl e ↦ (invalid_url, ground arith)
    | inr (u, e) ↦ (url_scheme, ground arith)
  ]

  port_ok :
      (text : List ℕ) (cfg : SharedConfig x) (p : ℕ)
      → port_or cfg.port text ≡ some p
      → read_port x text cfg ≡ (record cfg { port = p }, [])
  unfolding read_port
  port_ok [] cfg p h = ground arith
  port_ok (c ∷ text) cfg p h = ground arith

  port_bad :
      (text : List ℕ) (cfg : SharedConfig x)
      → port_or cfg.port text ≡ none
      → (read_port x text cfg).1 ≡ invalid_port_number ∷ []
  unfolding read_port
  port_bad [] cfg h = absurd (ground arith)
  port_bad (c ∷ text) cfg h = ground arith

  -- A setup form is accepted as given values exactly if its certificate file is missing, where the
  -- old certificate stays, or holds the certificate; its URL parses as the URL and has the scheme http
  -- or https; its port is empty, where the old port stays, or is the port; and the secret is that of
  -- the form.
  pub unmarshal_shared_iff :
      (cfg : SharedConfig x) (form : Form) (file : File) (c : Option x.Cert) (u : x.Url) (p : ℕ)
      → (unmarshal_shared x cfg (some form) file ≡ (
        record { registar_url = some u; secret = form Field.secret; ca_cert = c; port = p },
        [],
      ))
        ↔ ((cert_or cfg.ca_cert file ≡ some c)
            × (web_url (form Field.registar_url) ≡ some u)
            × (port_or cfg.port (form Field.port) ≡ some p))
  unfolding unmarshal_shared
  unmarshal_shared_iff cfg form file c u p =
      let raw = form Field.registar_url in
      let text = form Field.port in
      let with_cert = λ (d : Option x.Cert). record cfg { ca_cert = d } in
      let with_url = λ (d : Option x.Cert) (v : x.Url). record cfg {
        ca_cert = d;
        registar_url = some v;
        secret = form Field.secret;
      } in
      (
        λ h. elim (Option-cases (cert_or cfg.ca_cert file)) [
          | inl e ↦ let (y, bad) = cert_bad file cfg e in absurd (ground (arith, bad))
          | inr (d, e) ↦
              let good = cert_ok file cfg d e in
              elim (Option-cases (web_url raw)) [
                | inl f ↦
                    let (y, bad) = url_bad raw (with_cert d) f in absurd (ground (arith, good, bad))
                | inr (v, f) ↦
                    let fine = url_ok raw (with_cert d) v f in
                    elim (Option-cases (port_or cfg.port text)) [
                      | inl g ↦ absurd (ground (arith, good, fine, port_bad text (with_url d v) g))
                      | inr (q, g) ↦ ground (arith, good, fine, port_ok text (with_url d v) q g)
                    ]
              ]
        ],
        λ h. ground (
          arith,
          cert_ok file cfg c h.0,
          url_ok raw (with_cert c) u h.1,
          port_ok text (with_url c u) p h.2,
        ),
      )
