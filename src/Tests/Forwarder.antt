-- ===== src/Tests/Forwarder.antt =====
-- Links of internal/forwarder at concrete inputs.
use star.Prelude.{ℕ, ◌+◌, ◌≡◌, arith, refl, true, none, some, List, [], ◌∷◌, ◌++◌}
use star.Forwarder.Link.{
  LinkError, Event, polls, receives, cancels, bytes, deadline_exceeded, start, ctx_done, step, run,
  wait,
}
use star.Forwarder.Link.Steps.{packets_of, datagrams_of}
use star.Forwarder.Link.Carries.{run-start_prefix}
use star.Forwarder.Link.Ends.{wait-run}
use star.Forwarder.Host.{
  new_host, accepting, returned_nil, accepts, returns, hoster_closed, link_failed,
}
use star.Forwarder.Host
use star.Forwarder.Host.Laws.{count, accepted, run-new_host_count}
use star.Forwarder.Peer.{
  new_peer, accept_and_link, Round, game_conn, idle_timeout, transport_closed,
}
use star.Forwarder.Peer.Laws.{games_of, AllFail, accept_and_link_games}

-- A packet each way, silence, and a failure to receive.
abbrev traffic : List Event
traffic =
    polls 5 (bytes (1 ∷ 2 ∷ [])) true 6
    ∷ receives (some (9 ∷ [])) true
    ∷ polls 7 deadline_exceeded true 7
    ∷ receives none true
    ∷ []

run-start_prefix_example :
    ((rest : List (List ℕ)) × (packets_of traffic ≡ (run 10 (start 4) traffic).to_peer ++ rest))
    × ((rest : List (List ℕ)) × (datagrams_of traffic ≡ (run 10 (start 4) traffic).to_game ++ rest))
run-start_prefix_example = run-start_prefix 10 4 traffic

carried : (run 10 (start 4) traffic).to_peer ≡ (1 ∷ 2 ∷ []) ∷ []
unfolding run step star.Forwarder.Link.poll star.Forwarder.Link.receive start ctx_done
carried = refl

cancelled_start : ctx_done (run 10 (start 4) (cancels ∷ [])) ≡ true
unfolding run step start ctx_done
cancelled_start = refl

wait-run_example :
    (e : LinkError) × (wait (run 10 (run 10 (start 4) (cancels ∷ [])) traffic) ≡ some (some e))
wait-run_example = wait-run 10 4 (cancels ∷ []) traffic cancelled_start tt tt

abbrev visits : List Host.Event
visits = accepts 1 ∷ accepts 2 ∷ returns 1 link_failed ∷ hoster_closed ∷ []

run-new_host_count_example :
    count 2 (Host.run new_host visits).linking + count 2 (Host.run new_host visits).closed
    ≡ count 2 (accepted accepting visits)
run-new_host_count_example = run-new_host_count 2 visits

-- A game falls silent, and the next one ends with the transport.
abbrev rounds : List Round
rounds =
    (record { accept = game_conn 5; link = idle_timeout; rejoined = some 2 })
    ∷ (record { accept = game_conn 6; link = transport_closed; rejoined = none })
    ∷ []

rounds-AllFail : AllFail rounds
rounds-AllFail = (λ e. ground (arith, e), (λ e. ground (arith, e), tt))

accept_and_link_games_example :
    (accept_and_link (new_peer 1) rounds).closed_games
    ≡ games_of (accept_and_link (new_peer 1) rounds).links
accept_and_link_games_example = accept_and_link_games 1 rounds rounds-AllFail
