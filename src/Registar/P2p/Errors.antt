-- ===== src/Registar/P2p/Errors.antt =====
-- The errors of quic-go and http3, as far as the code tells them apart, and the tests of
-- internal/registar/p2p/connector.go of them. `errors.As` and `errors.Is` look through what
-- `fmt.Errorf` has wrapped.
use star.Prelude.{ℕ, Bool, true, false, ◌&&◌, ◌==◌, not}

pub data Error : Type 0 where
  canceled server_closed bad_request idle_timeout failed : Error
  stream_error application_error http3_error : ℕ → Bool → Error
  bad_status_code : ℕ → Error
  wrapped : Error → Error

-- `errcodeCancelled` and the codes after it.
abbrev pub errcode_cancelled : ℕ
errcode_cancelled = 1

abbrev pub errcode_bad_request : ℕ
errcode_bad_request = 2

abbrev pub errcode_conflict : ℕ
errcode_conflict = 3

-- `http3.ErrCodeRequestRejected` and `http3.ErrCodeRequestCanceled`.
abbrev pub request_rejected : ℕ
request_rejected = 0x10b

abbrev pub request_canceled : ℕ
request_canceled = 0x10c

unfoldable pub same : Bool → Bool → Bool
same true b = b
same false b = not b

-- The innermost error.
unfoldable pub cause : Error → Error
cause (wrapped e) = cause e
cause e = e

-- `errors.Is(err, context.Canceled)`
unfoldable pub is_canceled : Error → Bool
is_canceled e = elim (cause e) [ canceled ↦ true | _ ↦ false ]

unfoldable pub is_server_closed : Error → Bool
is_server_closed e = elim (cause e) [ server_closed ↦ true | _ ↦ false ]

-- A stream error with this code, from this side.
unfoldable pub is_stream_error : Error → ℕ → Bool → Bool
unfolding same
is_stream_error e code is_remote = elim (cause e) [
  | stream_error c remote ↦ c == code && same remote is_remote
  | _ ↦ false
]

unfoldable pub is_request_cancelled_error : Error → Bool → Bool
is_request_cancelled_error e is_remote = is_stream_error e request_canceled is_remote

unfoldable pub is_request_rejected_error : Error → Bool → Bool
is_request_rejected_error e is_remote = is_stream_error e request_rejected is_remote

-- An application error with this code, from the other side.
unfoldable pub is_remote_application_error : Error → ℕ → Bool
is_remote_application_error e code = elim (cause e) [
  | application_error c remote ↦ c == code && remote
  | _ ↦ false
]

unfoldable pub is_remote_conflict_error : Error → Bool
is_remote_conflict_error e = is_remote_application_error e errcode_conflict

unfoldable pub is_remote_cancelled_error : Error → Bool
is_remote_cancelled_error e = is_remote_application_error e errcode_cancelled

-- `errors.As(err, &badReq)`
unfoldable pub is_bad_request : Error → Bool
is_bad_request e = elim (cause e) [ bad_request ↦ true | _ ↦ false ]
