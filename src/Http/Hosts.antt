-- ===== src/Http/Hosts.antt =====
-- `AllowHosts` of internal/platform/httpplatform/middleware.go and `targetHost` of
-- internal/platform/httpplatform/redirect.go. Texts are lists of bytes.
pub mod Laws
use star.Prelude.{ℕ, Bool, true, false, ◌||◌, none, some, List, [], ◌∷◌, ◌==◌, if◌then◌else◌}
use star.Text.Decimal.{itoa}
use star.Text.HostPort.{split_host_port, join_host_port}

unfoldable pub same_text : List ℕ → List ℕ → Bool
same_text [] [] = true
same_text [] (y ∷ t) = false
same_text (x ∷ s) [] = false
same_text (x ∷ s) (y ∷ t) = if x == y then same_text s t else false

-- `slices.Contains`
unfoldable pub contains : List (List ℕ) → List ℕ → Bool
unfolding same_text
contains [] host = false
contains (h ∷ hosts) host = same_text h host || contains hosts host

-- The host without its port, or all of a text that does not split or has an empty host.
unfoldable pub request_host : List ℕ → List ℕ
request_host host = elim (split_host_port host) [
  | none ↦ host
  | some ([], port) ↦ host
  | some (x ∷ name, port) ↦ x ∷ name
]

-- Whether the handler runs; the other answer is 403.
unfoldable pub allow_hosts : List (List ℕ) → List ℕ → Bool
allow_hosts hosts host = contains hosts (request_host host)

-- The host of the URL that `RedirectHTTPS` redirects to.
unfoldable pub target_host : ℕ → List ℕ → List ℕ
target_host redirect_port host =
    if redirect_port == 443
    then request_host host
    else join_host_port (request_host host) (itoa redirect_port)
