-- ===== src/Registar/Peer.antt =====
-- internal/registar/peer.go: how the registar brings a host and a peer together. The two calls run at the
-- same time and each gives an error or `none`.
pub mod Laws
use star.Prelude.{Bool, true, false, ◌&&◌, ◌||◌, Option, none, some, if◌then◌else◌}
use star.Registar.Control.{
  Error, connect_failed, bad_status_code, failed, wrapped, joined_one, joined,
}

-- `errors.Is(err, control.ErrConnectFailed)`
is_error : Error → Bool
is_error connect_failed = true
is_error (bad_status_code status) = false
is_error failed = false
is_error (wrapped e) = is_error e
is_error (joined_one e) = is_error e
is_error (joined e f) = is_error e || is_error f

unfoldable pub is_connect_failed : Option Error → Bool
unfolding is_error
is_connect_failed none = false
is_connect_failed (some e) = is_error e

-- `errors.Join(err, e)`, which drops a nil error.
join : Option Error → Error → Error
join none e = joined_one e
join (some err) e = joined err e

pub join_errors : Option Error → Option Error → Option Error
unfolding join
join_errors host_err peer_err =
    let err : Option Error = elim host_err [ none ↦ none | some e ↦ some (wrapped e) ] in
    elim peer_err [ none ↦ err | some e ↦ some (join err (wrapped e)) ]

unfoldable pub is_nil : Option Error → Bool
is_nil none = true
is_nil (some e) = false

pub init_p2p : Option Error → Option Error → Option Error
unfolding is_nil
init_p2p host_err peer_err =
    if is_nil host_err && is_nil peer_err
    then none
    else if is_connect_failed host_err && is_connect_failed peer_err
    then some connect_failed
    else join_errors host_err peer_err

pub init_relay : Option Error → Option Error → Option Error
init_relay host_err peer_err = join_errors host_err peer_err
