-- ===== src/Web/Forms/Laws.antt =====
-- Which forms internal/webserver/models.go accepts, and as what.
use star.Prelude.{
  Option-cases, ℕ, ◌≤◌, ◌<◌, ◌^◌, ◌≡◌, ◌↔◌, ◌⊎◌, inl, inr, ◌≢◌, refl, ◌&&◌, Option, none, some,
  List, [], ◌∷◌, arith, ltb, if◌then◌else◌,
}
use star.Registar.Auth.Key.{Key, Result, ok, err, unmarshal_text}
use star.Text.Decimal.{itoa}
use star.Text.Atoi.{pos, negsuc, atoi}
use star.Text.Atoi.Laws.{atoi-itoa}
use star.Web.Forms.{
  Field, Form, FormError, valid_port, HostConfig, game_port_text, read_game_port, read_game_key,
  unmarshal_host, PeerConfig, read_invite_code, read_listen_port, unmarshal_peer,
}
use star.Web.Forms.{
  invite_code_is_required, invalid_invite_code, port_is_required, invalid_port_number,
  invalid_game_key,
}
use star.Registar.Auth.Key

no_port : valid_port [] ≡ none
unfolding valid_port atoi
no_port = refl

no_key : (k : Key) → unmarshal_text [] ≢ ok k
unfolding unmarshal_text
no_key k h = ground arith

port_bounds : (text : List ℕ) (q : ℕ) → valid_port text ≡ some q → (1 ≤ q) × (q ≤ 65535)
unfolding valid_port
port_bounds text q h = elim (Option-cases (atoi text)) [
  | inl e ↦ absurd (ground arith)
  | inr (negsuc n, e) ↦ absurd (ground arith)
  | inr (pos n, e) ↦ ground arith
]

-- A number below 2^63 in decimal is accepted as a port exactly from 1 to 65535, and any text that is
-- accepted gives a number from 1 to 65535.
pub valid_port-itoa :
    (text : List ℕ) (p q : ℕ)
    → p < 2 ^ 63
    → valid_port text ≡ some q
    → (valid_port (itoa p) ≡ (if ltb 0 p && ltb p 65536 then some p else none))
      × (1 ≤ q)
      × (q ≤ 65535)
unfolding valid_port
valid_port-itoa text p q small h =
    let bounds = port_bounds text q h in (ground (arith, atoi-itoa p small), bounds.0, bounds.1)

-- A text is empty, or the cases of its reading.
Result-cases : (r : Result Key) → ((k : Key) × (r ≡ ok k)) ⊎ ((e : Key.Error) × (r ≡ err e))
Result-cases (ok k) = inl (k, refl)
Result-cases (err e) = inr (e, refl)

abbrev pub key_or : Key → List ℕ → Result Key
key_or fresh [] = ok fresh
key_or fresh (c ∷ text) = unmarshal_text (c ∷ text)

port_ok :
    (text : List ℕ) (cfg : HostConfig) (p : ℕ)
    → valid_port text ≡ some p
    → read_game_port text cfg ≡ (record cfg { game_port = p }, [])
unfolding read_game_port
port_ok [] cfg p h = absurd (ground (arith, no_port))
port_ok (c ∷ text) cfg p h = ground arith

port_bad :
    (text : List ℕ) (cfg : HostConfig)
    → valid_port text ≡ none
    → (e : FormError) × (read_game_port text cfg ≡ (cfg, e ∷ []))
unfolding read_game_port
port_bad [] cfg h = (port_is_required, refl)
port_bad (c ∷ text) cfg h = (invalid_port_number, ground arith)

key_ok :
    (fresh : Key) (text : List ℕ) (cfg : HostConfig) (k : Key)
    → key_or fresh text ≡ ok k
    → read_game_key fresh text cfg ≡ (record cfg { game_key = k }, [])
unfolding read_game_key
key_ok fresh [] cfg k h = ground arith
key_ok fresh (c ∷ text) cfg k h = ground arith

key_bad :
    (fresh : Key) (text : List ℕ) (cfg : HostConfig) (e : Key.Error)
    → key_or fresh text ≡ err e
    → read_game_key fresh text cfg ≡ (cfg, invalid_game_key e ∷ [])
unfolding read_game_key
key_bad fresh [] cfg e h = absurd (ground arith)
key_bad fresh (c ∷ text) cfg e h = ground arith

-- A host form is accepted as a port and a key exactly if its port text, the custom one if that is
-- chosen, is a port, and its key is empty, where the fresh key is taken, or reads as this key.
pub unmarshal_host_iff :
    (fresh : Key) (cfg : HostConfig) (form : Form) (p : ℕ) (k : Key)
    → (unmarshal_host fresh cfg (some form) ≡ (record { game_port = p; game_key = k }, []))
      ↔ ((valid_port (game_port_text form) ≡ some p) × (key_or fresh (form Field.game_key) ≡ ok k))
unfolding unmarshal_host
unmarshal_host_iff fresh cfg form p k =
    let port = game_port_text form in
    let key = form Field.game_key in
    (
      λ h. elim (Option-cases (valid_port port)) [
        | inl e ↦ let (x, bad) = port_bad port cfg e in absurd (ground (arith, bad))
        | inr (q, e) ↦
            let good = port_ok port cfg q e in
            let cfg' : HostConfig = record cfg { game_port = q } in
            elim (Result-cases (key_or fresh key)) [
              | inl (j, f) ↦ ground (arith, good, key_ok fresh key cfg' j f)
              | inr (x, f) ↦ absurd (ground (arith, good, key_bad fresh key cfg' x f))
            ]
      ],
      λ h.
          ground
            (arith, port_ok port cfg p h.0, key_ok fresh key (record cfg { game_port = p }) k h.1),
    )

-- A port field that may be left empty.
abbrev pub port_or : ℕ → List ℕ → Option ℕ
port_or p [] = some p
port_or p (c ∷ text) = valid_port (c ∷ text)

invite_ok :
    (text : List ℕ) (cfg : PeerConfig) (k : Key)
    → unmarshal_text text ≡ ok k
    → read_invite_code text cfg ≡ (record cfg { invite_code = k }, [])
unfolding read_invite_code
invite_ok [] cfg k h = absurd (ground (arith, no_key k))
invite_ok (c ∷ text) cfg k h = ground arith

invite_bad :
    (text : List ℕ) (cfg : PeerConfig) (x : Key.Error)
    → unmarshal_text text ≡ err x
    → (e : FormError) × (read_invite_code text cfg ≡ (cfg, e ∷ []))
unfolding read_invite_code
invite_bad [] cfg x h = (invite_code_is_required, refl)
invite_bad (c ∷ text) cfg x h = (invalid_invite_code x, ground arith)

listen_ok :
    (text : List ℕ) (cfg : PeerConfig) (p : ℕ)
    → port_or 0 text ≡ some p
    → read_listen_port text cfg ≡ (record cfg { game_listen_port = p }, [])
unfolding read_listen_port
listen_ok [] cfg p h = ground arith
listen_ok (c ∷ text) cfg p h = ground arith

listen_bad :
    (text : List ℕ) (cfg : PeerConfig)
    → port_or 0 text ≡ none
    → read_listen_port text cfg ≡ (cfg, invalid_port_number ∷ [])
unfolding read_listen_port
listen_bad [] cfg h = absurd (ground arith)
listen_bad (c ∷ text) cfg h = ground arith

-- A peer form is accepted as a key and a port exactly if its invite code reads as the key, and its
-- port is empty, which counts as 0, or is this port.
pub unmarshal_peer_iff :
    (cfg : PeerConfig) (form : Form) (k : Key) (p : ℕ)
    → (unmarshal_peer cfg (some form) ≡ (record { invite_code = k; game_listen_port = p }, [])) ↔ (
        (unmarshal_text (form Field.invite_code) ≡ ok k)
        × (port_or 0 (form Field.game_listen_port) ≡ some p))
unfolding unmarshal_peer
unmarshal_peer_iff cfg form k p =
    let code = form Field.invite_code in
    let port = form Field.game_listen_port in
    (
      λ h. elim (Result-cases (unmarshal_text code)) [
        | inr (x, e) ↦ let (y, bad) = invite_bad code cfg x e in absurd (ground (arith, bad))
        | inl (j, e) ↦
            let good = invite_ok code cfg j e in
            let cfg' : PeerConfig = record cfg { invite_code = j } in
            elim (Option-cases (port_or 0 port)) [
              | inl f ↦ absurd (ground (arith, good, listen_bad port cfg' f))
              | inr (q, f) ↦ ground (arith, good, listen_ok port cfg' q f)
            ]
      ],
      λ h.
          ground (
            arith,
            invite_ok code cfg k h.0,
            listen_ok port (record cfg { invite_code = k }) p h.1,
          ),
    )
