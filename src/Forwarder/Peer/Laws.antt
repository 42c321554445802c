-- ===== src/Forwarder/Peer/Laws.antt =====
-- What `AcceptAndLink` of internal/forwarder/peer.go links and closes.
use mathlib.Core.List.{append_assoc, append-nil}
use star.Prelude.{
  ℕ, ◌≡◌, ◌≢◌, refl, sym, ap, ◌∙◌, true, false, Option, none, some, List, [], ◌∷◌, ◌++◌, arith,
  Bool-cases, inl, inr,
}
use star.Forwarder.Peer.{
  Accepted, game_conn, closed_listener, accept_failed, LinkResult, linked_nil, idle_timeout,
  transport_closed, link_failed, Round, running, Peer, new_peer, after_link, turn, accept_and_link,
  is_running, close_game, rejoin,
}

pub games_of : List (ℕ × Option ℕ) → List ℕ
games_of [] = []
games_of ((game, host) ∷ links) = game ∷ games_of links

games_of-snoc :
    (links : List (ℕ × Option ℕ)) (game : ℕ) (host : Option ℕ)
    → games_of (links ++ (game, host) ∷ []) ≡ games_of links ++ game ∷ []
unfolding games_of
games_of-snoc [] game host = refl
games_of-snoc ((g, h) ∷ links) game host = ap (◌∷◌ g) (games_of-snoc links game host)

-- No link returns nil, which `link` never does.
abbrev pub AllFail : List Round → Type 0
AllFail [] = Unit
AllFail (r ∷ rs) = (r.link ≢ linked_nil) × AllFail rs

turn_games :
    (p : Peer) (accept : Accepted) (link : LinkResult) (rejoined : Option ℕ)
    → link ≢ linked_nil
    → p.closed_games ≡ games_of p.links
    → (turn p accept link rejoined).closed_games ≡ games_of (turn p accept link rejoined).links
unfolding turn after_link close_game rejoin
turn_games p (closed_listener true) link rejoined n h = h
turn_games p (closed_listener false) link rejoined n h = h
turn_games p accept_failed link rejoined n h = h
turn_games p (game_conn game) linked_nil rejoined n h = absurd (n refl)
turn_games p (game_conn game) idle_timeout none n h =
    ground (arith, h, games_of-snoc p.links game p.host_conn)
turn_games p (game_conn game) idle_timeout (some c) n h =
    ground (arith, h, games_of-snoc p.links game p.host_conn)
turn_games p (game_conn game) transport_closed rejoined n h =
    ground (arith, h, games_of-snoc p.links game p.host_conn)
turn_games p (game_conn game) link_failed rejoined n h =
    ground (arith, h, games_of-snoc p.links game p.host_conn)

loop_games :
    (p : Peer) (rounds : List Round)
    → AllFail rounds
    → p.closed_games ≡ games_of p.links
    → (accept_and_link p rounds).closed_games ≡ games_of (accept_and_link p rounds).links
unfolding accept_and_link
loop_games p [] all h = h
loop_games p (r ∷ rs) all h = elim (Bool-cases (is_running p.loop)) [
  | inl on ↦
      let next = turn_games p r.accept r.link r.rejoined all.0 h in
      let rest = loop_games (turn p r.accept r.link r.rejoined) rs all.1 next in
      ground (arith, on, rest)
  | inr off ↦ ground (arith, off, h)
]

-- Each connection of the game that was linked is closed, once and in the order of the links, however
-- the loop ends, as `link` never returns nil.
pub accept_and_link_games :
    (host : ℕ) (rounds : List Round)
    → AllFail rounds
    → (accept_and_link (new_peer host) rounds).closed_games
      ≡ games_of (accept_and_link (new_peer host) rounds).links
unfolding new_peer games_of
accept_and_link_games host rounds all = loop_games (new_peer host) rounds all refl

-- Rounds with a game that falls silent, each followed by a new connection to the host.
abbrev pub idle_rounds : List (ℕ × ℕ) → List Round
idle_rounds [] = []
idle_rounds ((game, host) ∷ rest) =
    (record { accept = game_conn game; link = idle_timeout; rejoined = some host })
    ∷ idle_rounds rest

-- Each game with the connection to the host that is the newest when it comes.
abbrev pub newest : ℕ → List (ℕ × ℕ) → List (ℕ × Option ℕ)
newest host [] = []
newest host ((game, next) ∷ rest) = (game, some host) ∷ newest next rest

module _ (p : Peer) (game next : ℕ) where
  turn_host : (turn p (game_conn game) idle_timeout (some next)).host_conn ≡ some next
  unfolding turn after_link rejoin close_game
  turn_host = refl

  turn_loop : (turn p (game_conn game) idle_timeout (some next)).loop ≡ p.loop
  unfolding turn after_link rejoin close_game
  turn_loop = refl

  turn_links :
      (turn p (game_conn game) idle_timeout (some next)).links ≡ p.links ++ (game, p.host_conn) ∷ []
  unfolding turn after_link rejoin close_game
  turn_links = refl

  turn_hosts : (turn p (game_conn game) idle_timeout (some next)).closed_hosts ≡ p.closed_hosts
  unfolding turn after_link rejoin close_game
  turn_hosts = refl

running_lem : (p : Peer) → p.loop ≡ running → is_running p.loop ≡ true
unfolding is_running
running_lem p r = rw r refl

idle_lem :
    (p : Peer) (host : ℕ) (rounds : List (ℕ × ℕ))
    → p.host_conn ≡ some host
    → p.loop ≡ running
    → ((accept_and_link p (idle_rounds rounds)).links ≡ p.links ++ newest host rounds)
      × ((accept_and_link p (idle_rounds rounds)).closed_hosts ≡ p.closed_hosts)
      × ((accept_and_link p (idle_rounds rounds)).loop ≡ running)
unfolding accept_and_link
idle_lem p host [] q r = (sym (append-nil p.links), refl, r)
idle_lem p host ((game, next) ∷ rounds) q r =
    let p' = turn p (game_conn game) idle_timeout (some next) in
    let (links, hosts, loop) =
      idle_lem p' next rounds (turn_host p game next) (turn_loop p game next ∙ r) in
    let first = turn_links p game next ∙ ap (λ c. p.links ++ (game, c) ∷ []) q in
    let kept = turn_hosts p game next in
    let on = running_lem p r in
    (
      ground (
        arith,
        on,
        links,
        first,
        append_assoc p.links ((game, some host) ∷ []) (newest next rounds),
      ),
      ground (arith, on, hosts, kept),
      ground (arith, on, loop),
    )

-- While games fall silent and the host can be joined again, the loop goes on: each game is linked
-- to the newest connection to the host. The loop closes none of the connections that these replace.
accept_and_link_idle :
    (host : ℕ) (rounds : List (ℕ × ℕ))
    → ((accept_and_link (new_peer host) (idle_rounds rounds)).links ≡ newest host rounds)
      × ((accept_and_link (new_peer host) (idle_rounds rounds)).closed_hosts ≡ [])
      × ((accept_and_link (new_peer host) (idle_rounds rounds)).loop ≡ running)
unfolding new_peer
accept_and_link_idle host rounds = idle_lem (new_peer host) host rounds refl refl
