-- ===== src/Http/Hosts/Laws.antt =====
-- What hosts `AllowHosts` lets through, and where `RedirectHTTPS` sends a request.
use star.Prelude.{
  Bool-cases, ℕ, ◌≡◌, ◌≢◌, ◌↔◌, ◌⊎◌, inl, inr, refl, true, false, List, [], ◌∷◌, ◌++◌, arith, ◌==◌,
  if◌then◌else◌,
}
use star.Text.Decimal.{itoa}
use star.Text.HostPort.{join_host_port}
use star.Text.HostPort
use star.Text.HostPort.Laws.{
  IsPlain, split_host_port-none, split_host_port_plain, split_host_port_brackets,
  split_host_port_bare, contains-brackets,
}
use star.Http.Hosts.{same_text, contains, request_host, allow_hosts, target_host}

same_text_iff : (s t : List ℕ) → (same_text s t ≡ true) ↔ (s ≡ t)
unfolding same_text
same_text_iff [] [] = (λ h. refl, λ h. refl)
same_text_iff [] (y ∷ t) = (λ h. absurd (ground arith), λ h. absurd (ground arith))
same_text_iff (x ∷ s) [] = (λ h. absurd (ground arith), λ h. absurd (ground arith))
same_text_iff (x ∷ s) (y ∷ t) =
    (λ h. ground (arith, (same_text_iff s t).0), λ h. ground (arith, (same_text_iff s t).1))

-- A host of the list.
abbrev pub IsListed : List (List ℕ) → List ℕ → Type 0
IsListed [] host = ⊥
IsListed (h ∷ hosts) host = (h ≡ host) ⊎ IsListed hosts host

contains_iff :
    (hosts : List (List ℕ)) (host : List ℕ) → (contains hosts host ≡ true) ↔ IsListed hosts host
unfolding contains
contains_iff [] host = (λ h. absurd (ground arith), λ h. absurd h)
contains_iff (x ∷ hosts) host = (
  λ h. elim (Bool-cases (same_text x host)) [
    | inl e ↦ inl ((same_text_iff x host).0 e)
    | inr n ↦ inr ((contains_iff hosts host).0 (ground arith))
  ],
  λ h. elim h [
    | inl e ↦ rw ((same_text_iff x host).1 e) refl
    | inr l ↦ ground (arith, (contains_iff hosts host).1 l)
  ],
)

request_host_name :
    (x : ℕ) (name : List ℕ) → IsPlain (x ∷ name) → request_host (x ∷ name) ≡ x ∷ name
unfolding request_host
request_host_name x name h = ground (arith, split_host_port-none (x ∷ name) h.no_colon)

request_host_port :
    (x : ℕ) (name port : List ℕ)
    → IsPlain (x ∷ name)
    → IsPlain port
    → request_host (x ∷ name ++ b':' ∷ port) ≡ x ∷ name
unfolding request_host
request_host_port x name port h p = ground (arith, split_host_port_plain (x ∷ name) port h p)

-- A request for a name, with a port or without one, passes exactly if the name is listed, where name
-- and port have no colon and no bracket and the name is not empty.
allow_hosts_iff :
    (hosts : List (List ℕ)) (x : ℕ) (name port : List ℕ)
    → IsPlain (x ∷ name)
    → IsPlain port
    → ((allow_hosts hosts (x ∷ name) ≡ true) ↔ IsListed hosts (x ∷ name))
      × ((allow_hosts hosts (x ∷ name ++ b':' ∷ port) ≡ true) ↔ IsListed hosts (x ∷ name))
unfolding allow_hosts
allow_hosts_iff hosts x name port h p = (
  rw (request_host_name x name h) (contains_iff hosts (x ∷ name)),
  rw (request_host_port x name port h p) (contains_iff hosts (x ∷ name)),
)

-- The redirect of a request for a name goes to the name, with the port unless it is 443, whatever
-- port the request had.
pub target_host_lem :
    (redirect x : ℕ) (name port : List ℕ)
    → IsPlain (x ∷ name)
    → IsPlain port
    → (target_host redirect (x ∷ name)
        ≡ (if redirect == 443 then x ∷ name else (x ∷ name) ++ b':' ∷ itoa redirect))
      × (target_host redirect (x ∷ name ++ b':' ∷ port) ≡ target_host redirect (x ∷ name))
unfolding target_host join_host_port
target_host_lem redirect x name port h p = (
  ground (arith, request_host_name x name h, h.no_colon),
  ground (arith, request_host_name x name h, request_host_port x name port h p),
)

-- An address with colons in brackets keeps them if it comes with a port and the redirect has another
-- than 443. It loses them if the redirect has 443, and gets a second pair if it came without a port
-- and the redirect has another than 443.
target_host_brackets :
    (redirect x : ℕ) (address port : List ℕ)
    → HostPort.contains (x ∷ address) b':' ≡ true
    → HostPort.contains (x ∷ address) b'[' ≡ false
    → HostPort.contains (x ∷ address) b']' ≡ false
    → IsPlain port
    → redirect ≢ 443
    → (target_host redirect (b'[' ∷ x ∷ address ++ b']' ∷ b':' ∷ port)
        ≡ b'[' ∷ x ∷ address ++ b']' ∷ b':' ∷ itoa redirect)
      × (target_host 443 (b'[' ∷ x ∷ address ++ b']' ∷ b':' ∷ port) ≡ x ∷ address)
      × (target_host redirect (b'[' ∷ x ∷ address ++ b']' ∷ [])
          ≡ b'[' ∷ (b'[' ∷ x ∷ address ++ b']' ∷ []) ++ b']' ∷ b':' ∷ itoa redirect)
unfolding target_host request_host join_host_port
target_host_brackets redirect x address port colon no_open no_close p n =
    let split = split_host_port_brackets (x ∷ address) port no_open no_close p in
    (
      ground (arith, split),
      ground (arith, split),
      ground (
        arith,
        split_host_port_bare (x ∷ address) no_close,
        contains-brackets (x ∷ address) colon,
      ),
    )
