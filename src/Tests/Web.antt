-- ===== src/Tests/Web.antt =====
-- The history and the session of internal/webserver at concrete values.
use star.Prelude.{ℕ, ◌+◌, ltb, if◌then◌else◌, ◌≡◌, none, some, List, [], ◌∷◌, true, arith}
use star.Web.Sse.{new_ring_buffer, entries, SseHandler}
use star.Web.Sse.Laws.{add_all, last, entries-add_all}
use star.Web.Session.{
  Event, requests, finishes, stops_host, sets_up, starts_host, starts_peer, host_mode, count, run,
  new_server,
}
use star.Web.Session.Laws.{is_current, run-new_server}

abbrev five_lines : List ℕ
five_lines = 1 ∷ 2 ∷ 3 ∷ 4 ∷ 5 ∷ []

entries-add_all_example :
    elim (add_all (new_ring_buffer 3) five_lines) [ none ↦ none | some rb ↦ entries rb ]
    ≡ some (last 3 five_lines)
entries-add_all_example = entries-add_all 3 five_lines (omega arith)

abbrev log_handler : SseHandler ℕ
log_handler = record { history = new_ring_buffer 3; subscribers = [] }

-- A host is started, a peer is refused meanwhile, and another session follows before the first is stopped.
abbrev visits : List (Event ℕ ℕ)
visits =
    requests (sets_up (some (1, 2)) host_mode)
    ∷ requests (starts_host (some 3) true)
    ∷ requests (starts_peer (some 4) true)
    ∷ requests stops_host
    ∷ requests (starts_peer (some 5) true)
    ∷ finishes 0
    ∷ []

run-new_server_example :
    is_current 0 (run (new_server log_handler) visits).session
      + count 0 (run (new_server log_handler) visits).stopping
      + count 0 (run (new_server log_handler) visits).stopped
    ≡ (if ltb 0 (run (new_server log_handler) visits).next_done then 1 else 0)
run-new_server_example = run-new_server log_handler visits 0
