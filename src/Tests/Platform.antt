-- ===== src/Tests/Platform.antt =====
-- The queue of internal/platform/queue.go at concrete values.
use star.Prelude.{ℕ, ◌≡◌, refl, true, false, some, List, [], ◌∷◌, ◌++◌, arith}
use star.Platform.Queue.{empty}
use star.Platform.Queue.Runs.{Call, pushes, pops, peeks, run, fifo, run-empty-fifo}
use native.Mathlib.Decide.{ℕ_discrete}
use star.Prelude.Dict.{get, put}
use star.Platform.Udp.{Conn, Listener, dispatch, connect, listen, by_queue}
use star.Platform.Udp.Sound.{listen-IsSound, dispatch-IsSound}
use star.Platform.Udp.Runs.{Event, packet, accepts, closes, closes_conn, step}
use star.Platform.Udp.Runs
use star.Platform.Udp.Lock.{Locked, holds, looks_up, closes, gets}
use star.Platform.Udp.Lock
use star.Platform.Udp.Lock.Laws.{run-closes}
use star.Platform.Udp.Delivery.{arriving, dispatch_lem}

abbrev calls : List (Call ℕ)
calls = pushes 1 ∷ pushes 2 ∷ pops ∷ pushes 3 ∷ peeks ∷ pops ∷ pops ∷ pops ∷ []

run-empty-fifo_example : run 0 empty calls ≡ some (fifo 0 [] calls)
run-empty-fifo_example = run-empty-fifo 0 calls

-- The same calls, computed.
calls_run : fifo 0 [] calls ≡ (1, true) ∷ (2, true) ∷ (2, true) ∷ (3, true) ∷ (0, false) ∷ []
unfolding fifo
calls_run = refl

-- Two senders, one of them accepted and closed after the listener.
abbrev udp_events : List (Event ℕ)
udp_events =
    packet 7 (1 ∷ [])
    ∷ packet 8 (2 ∷ [])
    ∷ packet 7 (3 ∷ [])
    ∷ accepts by_queue
    ∷ closes
    ∷ closes_conn 0
    ∷ []

abbrev listening : Listener ℕ
listening = (dispatch ℕ_discrete (listen ℕ 2 4) 7 (1 ∷ [])).0

abbrev first_conn : Conn ℕ
first_conn = record { reads = (1 ∷ []) ∷ []; write_addr = 7; done = false }

first_conn_there : get ℕ_discrete 0 listening.store ≡ some first_conn
unfolding dispatch connect listen get put
first_conn_there = ground arith

dispatch_lem_example :
    get ℕ_discrete 0 (dispatch ℕ_discrete listening 7 (3 ∷ [])).0.store
    ≡ some (record first_conn {
      reads = first_conn.reads ++ arriving ℕ_discrete listening first_conn 7 (3 ∷ []);
    })
dispatch_lem_example =
    dispatch_lem ℕ_discrete listening 7 (3 ∷ []) 0 first_conn
      (dispatch-IsSound ℕ_discrete (listen ℕ 2 4) 7 (1 ∷ []) (listen-IsSound ℕ_discrete 2 4))
      first_conn_there

-- The read loop has a packet of a new address.
abbrev dispatching : Locked ℕ
dispatching = record { listener = listen ℕ 2 4; reader = holds 7 (1 ∷ []); waiting = false }

run-closes_example :
    ((Lock.run ℕ_discrete dispatching (closes ∷ looks_up ∷ [])).waiting ≡ true)
    × ((Lock.run ℕ_discrete dispatching (closes ∷ looks_up ∷ [])).reader ≡ holds 7 (1 ∷ []))
unfolding listen star.Platform.Udp.is_empty
run-closes_example = run-closes ℕ_discrete dispatching (looks_up ∷ []) refl refl refl refl refl
