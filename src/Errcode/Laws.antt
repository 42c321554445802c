-- ===== src/Errcode/Laws.antt =====
-- The tests of internal/errcode/errcode.go tell the ends of a connection apart.
use star.Prelude.{◌≡◌, false, ◌&&◌, arith}
use star.Registar.P2p.Errors.{Error, is_stream_error, same}
use star.Registar.Client.{is_http3_error}
use star.Errcode.{
  StreamCode, is_local_quic_conn_closed, is_remote_quic_conn_closed, is_local_stream_error,
  is_remote_stream_error, is_local_http_error,
}

-- No error counts as closed by both ends, and none as two of: a stream error of this side, a stream
-- error of the other side, an HTTP error of this side, whatever their codes.
ends_apart :
    (e : Error) (c d : StreamCode)
    → ((is_local_quic_conn_closed e && is_remote_quic_conn_closed e) ≡ false)
      × ((is_local_stream_error e c && is_remote_stream_error e d) ≡ false)
      × ((is_local_stream_error e c && is_local_http_error e d) ≡ false)
      × ((is_remote_stream_error e c && is_local_http_error e d) ≡ false)
unfolding is_local_quic_conn_closed is_remote_quic_conn_closed is_local_stream_error
    is_remote_stream_error is_local_http_error is_stream_error is_http3_error same
ends_apart e c d = (ground arith, ground arith, ground arith, ground arith)
