-- ===== src/Forwarder/Peer.antt =====
-- internal/forwarder/peer.go: `Join` and `AcceptAndLink` of a peer. A connection is a number, its
-- identity; what the calls return is an input.
pub mod Laws
use star.Prelude.{
  ℕ, ◌*◌, Bool, true, false, Option, none, some, List, [], ◌∷◌, ◌++◌, ◌==◌, if◌then◌else◌,
}

-- 10 seconds, in nanoseconds
abbrev pub default_udp_idle_timeout : ℕ
default_udp_idle_timeout = 10 * 1000000000

-- What `PeerConfig.Join` returns, and the connections that it has closed: the joiner, or none.
pub data Created : Type 0 where
  created : ℕ → ℕ → Created
  create_joiner_failed join_host_failed listen_udp_failed : Created

pub record PeerJoin : Type 0 where
  pub result : Created
  pub joiner_open : Bool

-- `NewJoiner` succeeds or not; `Join` gives the connection to the host, `Listen` works or not.
unfoldable pub join : ℕ → Bool → Option ℕ → Bool → PeerJoin
join udp_idle_timeout false conn listens = record {
  result = create_joiner_failed;
  joiner_open = false;
}
join udp_idle_timeout true none listens = record { result = join_host_failed; joiner_open = false }
join udp_idle_timeout true (some conn) false = record {
  result = listen_udp_failed;
  joiner_open = false;
}
join udp_idle_timeout true (some conn) true = record {
  result =
      created conn (if udp_idle_timeout == 0 then default_udp_idle_timeout else udp_idle_timeout);
  joiner_open = true;
}

-- What `Accept` of the listener returns: a connection of the game, `ErrClosedListener` with the
-- context done or not, or another error.
pub data Accepted : Type 0 where
  game_conn : ℕ → Accepted
  closed_listener : Bool → Accepted
  accept_failed : Accepted

-- What `link` returns.
pub data LinkResult : Type 0 where
  linked_nil idle_timeout transport_closed link_failed : LinkResult

-- A round of the loop: what the calls return, if they are made. `rejoined` is that of `Join`.
pub record Round : Type 0 where
  pub accept : Accepted
  pub link : LinkResult
  pub rejoined : Option ℕ

pub data Returned : Type 0 where
  running context_canceled accept_error join_error returned_nil link_error : Returned

-- `links` are the connections that were linked, game and host, in order.
pub record Peer : Type 0 where
  pub host_conn : Option ℕ
  pub links : List (ℕ × Option ℕ)
  pub closed_games : List ℕ
  pub closed_hosts : List (Option ℕ)
  pub loop : Returned

unfoldable pub new_peer : ℕ → Peer
new_peer host_conn = record {
  host_conn = some host_conn;
  links = [];
  closed_games = [];
  closed_hosts = [];
  loop = running;
}

close_game : Peer → ℕ → Peer
close_game p game = record p { closed_games = p.closed_games ++ game ∷ [] }

-- `Join` sets the field in any case: to nil if it fails.
rejoin : Peer → Option ℕ → Peer
rejoin p none = record p { host_conn = none; loop = join_error }
rejoin p (some conn) = record p { host_conn = some conn }

unfoldable pub after_link : Peer → ℕ → LinkResult → Option ℕ → Peer
unfolding close_game rejoin
after_link p game linked_nil rejoined = p
after_link p game idle_timeout rejoined = rejoin (close_game p game) rejoined
after_link p game transport_closed rejoined = record (close_game p game) { loop = returned_nil }
after_link p game link_failed rejoined = record (close_game p game) {
  closed_hosts = p.closed_hosts ++ p.host_conn ∷ [];
  loop = link_error;
}

unfoldable pub turn : Peer → Accepted → LinkResult → Option ℕ → Peer
unfolding after_link
turn p (closed_listener true) link rejoined = record p { loop = context_canceled }
turn p (closed_listener false) link rejoined = record p { loop = accept_error }
turn p accept_failed link rejoined = record p { loop = accept_error }
turn p (game_conn game) link rejoined =
    after_link (record p { links = p.links ++ (game, p.host_conn) ∷ [] }) game link rejoined

is_running : Returned → Bool
is_running running = true
is_running context_canceled = false
is_running accept_error = false
is_running join_error = false
is_running returned_nil = false
is_running link_error = false

-- `AcceptAndLink`
unfoldable pub accept_and_link : Peer → List Round → Peer
unfolding turn is_running
accept_and_link p [] = p
accept_and_link p (r ∷ rs) =
    let rest = accept_and_link (turn p r.accept r.link r.rejoined) rs in
    if is_running p.loop then rest else p
