-- ===== src/Errcode.antt =====
-- internal/errcode/errcode.go: the codes of streams and the tests of errors.
pub mod Laws
use star.Prelude.{ℕ, Bool, true, false, ◌&&◌, not, ◌==◌}
use star.Registar.P2p.Errors.{
  Error, cause, application_error, stream_error, http3_error, is_stream_error, same,
}
use star.Registar.Client.{is_http3_error}

-- `Exit`
abbrev pub exit_code : ℕ
exit_code = 0

-- The stream codes, which count from 1.
pub data StreamCode : Type 0 where
  unknown host_closed peer_closed host_internal_error peer_internal_error cancelled : StreamCode

unfoldable pub code_of : StreamCode → ℕ
code_of unknown = 1
code_of host_closed = 2
code_of peer_closed = 3
code_of host_internal_error = 4
code_of peer_internal_error = 5
code_of cancelled = 6

unfoldable pub is_local_quic_conn_closed : Error → Bool
is_local_quic_conn_closed e = is_http3_error e exit_code false

unfoldable pub is_remote_quic_conn_closed : Error → Bool
is_remote_quic_conn_closed e = is_http3_error e exit_code true

unfoldable pub is_local_stream_error : Error → StreamCode → Bool
is_local_stream_error e code = is_stream_error e (code_of code) false

unfoldable pub is_remote_stream_error : Error → StreamCode → Bool
is_remote_stream_error e code = is_stream_error e (code_of code) true

unfoldable pub is_local_http_error : Error → StreamCode → Bool
is_local_http_error e code = is_http3_error e (code_of code) false
