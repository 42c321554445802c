-- ===== src/Tests/Forms.antt =====
-- The forms of internal/webserver/models.go at concrete inputs.
use star.Prelude.{
  ℕ, ◌≤◌, ◌≡◌, ◌↔◌, refl, ◌&&◌, none, some, List, [], ◌∷◌, arith, ltb, take, if◌then◌else◌,
}
use star.Text.Decimal.{itoa}
use star.Text.Atoi.{atoi}
use star.Web.Forms.{Field, Form, Parsers, SharedConfig, unmarshal_shared, valid_port, missing_file}
use star.Web.Forms.Laws.{valid_port-itoa, port_or}
use star.Web.Forms.Shared.{unmarshal_shared_iff, cert_or, web_url}

-- "8080"
abbrev port_text : List ℕ
port_text = b'8' ∷ b'0' ∷ b'8' ∷ b'0' ∷ []

port_8080 : valid_port port_text ≡ some 8080
unfolding valid_port atoi star.Text.Atoi.unsigned star.Text.Atoi.signed
    star.Text.Decimal.read_digits
port_8080 = refl

valid_port-itoa_example :
    (valid_port (itoa 70000) ≡ (if ltb 0 70000 && ltb 70000 65536 then some 70000 else none))
    × (1 ≤ 8080)
    × (8080 ≤ 65535)
valid_port-itoa_example = valid_port-itoa port_text 70000 8080 (omega arith) port_8080

-- A URL is its text, with the scheme before the colon of http://.
abbrev sample_parsers : Parsers
sample_parsers = record {
  Url = List ℕ;
  Cert = List ℕ;
  parse_url = some;
  scheme = take 4;
  decode_pem = λ bytes. none;
  parse_certificate = some;
}

abbrev url_text : List ℕ
url_text = b'h' ∷ b't' ∷ b't' ∷ b'p' ∷ b':' ∷ b'/' ∷ b'/' ∷ b'a' ∷ []

abbrev setup : Form
setup Field.registar_url = url_text
setup Field.secret = b's' ∷ []
setup Field.port = port_text
setup Field.game_port = []
setup Field.custom_game_port = []
setup Field.game_key = []
setup Field.invite_code = []
setup Field.game_listen_port = []

abbrev no_config : SharedConfig sample_parsers
no_config = record { registar_url = none; secret = []; ca_cert = none; port = 0 }

unmarshal_shared_iff_example :
    (unmarshal_shared sample_parsers no_config (some setup) missing_file ≡ (
      record { registar_url = some url_text; secret = b's' ∷ []; ca_cert = none; port = 8080 },
      [],
    ))
    ↔ ((cert_or sample_parsers none missing_file ≡ some none)
        × (web_url sample_parsers url_text ≡ some url_text)
        × (port_or 0 port_text ≡ some 8080))
unmarshal_shared_iff_example =
    unmarshal_shared_iff sample_parsers no_config setup missing_file none url_text 8080

accepted_setup :
    unmarshal_shared sample_parsers no_config (some setup) missing_file
    ≡ (record { registar_url = some url_text; secret = b's' ∷ []; ca_cert = none; port = 8080 }, [])
unfolding star.Http.Hosts.same_text
accepted_setup = unmarshal_shared_iff_example.1 (refl, refl, port_8080)
