-- ===== src/Registar/Peer/Laws.antt =====
-- When internal/registar/peer.go reports success, and when its error counts as a failed attempt.
use star.Prelude.{◌≡◌, refl, ◌&&◌, ◌||◌, Option, none, some, arith}
use star.Registar.Control.{Error}
use star.Registar.Peer.{is_connect_failed, join_errors, is_nil, init_p2p, init_relay}

-- A peer-to-peer attempt succeeds only if both sides do. Any other outcome in which at least one
-- side failed to connect counts as `ErrConnectFailed`, also if the other side succeeded or broke.
pub init_p2p_lem :
    (host_err peer_err : Option Error)
    → (is_nil (init_p2p host_err peer_err) ≡ (is_nil host_err && is_nil peer_err))
      × (is_connect_failed (init_p2p host_err peer_err)
          ≡ (is_connect_failed host_err || is_connect_failed peer_err))
unfolding init_p2p join_errors is_connect_failed
init_p2p_lem none none = (refl, refl)
init_p2p_lem none (some e) = (refl, refl)
init_p2p_lem (some e) none = ground arith
init_p2p_lem (some e) (some f) = ground arith

-- A relay attempt succeeds only if both sides do.
pub init_relay_lem :
    (host_err peer_err : Option Error)
    → is_nil (init_relay host_err peer_err) ≡ (is_nil host_err && is_nil peer_err)
unfolding init_relay join_errors is_nil
init_relay_lem none none = refl
init_relay_lem none (some e) = refl
init_relay_lem (some e) none = refl
init_relay_lem (some e) (some f) = refl
