-- ===== src/Registar/Control/Laws.antt =====
-- The control protocol of internal/registar/control end to end: the registar's error tells what the
-- client's callback did.
use star.Prelude.{◌≡◌, refl, Bool, true, false, Option, none, some}
use star.Registar.Control.{
  Error, connect_failed, bad_status_code, answered, connect_to, connect_via_relay, Attempt, started,
  broken, connect_to_request, relay_request, serve_one, status_bad_request,
  status_internal_server_error,
}

-- What the registar should learn of an attempt.
unfoldable pub report : Bool → Attempt → Option Error
report true (started true) = none
report true (started false) = some connect_failed
report true broken = some (bad_status_code status_internal_server_error)
report false f = some (bad_status_code status_bad_request)

-- `ConnectTo` returns nil exactly for an attempt that was made, `ErrConnectFailed` exactly for one
-- that found no way to the peer, and another error for all else.
pub connect_to-serve_one :
    (decoded : Bool) (f : Attempt)
    → connect_to (answered (serve_one (connect_to_request decoded f))) ≡ report decoded f
unfolding connect_to serve_one report
connect_to-serve_one true (started true) = refl
connect_to-serve_one true (started false) = refl
connect_to-serve_one true broken = refl
connect_to-serve_one false f = refl

pub connect_via_relay-serve_one :
    (ok : Bool)
    → connect_via_relay (answered (serve_one (relay_request ok)))
      ≡ elim ok [ true ↦ none | false ↦ some (bad_status_code status_internal_server_error) ]
unfolding connect_via_relay serve_one
connect_via_relay-serve_one true = refl
connect_via_relay-serve_one false = refl
