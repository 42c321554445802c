-- ===== src/Platform/Udp/Runs.antt =====
-- Any sequence of calls and packets of the listener of internal/platform/udp, one after another.
use star.Prelude.{ℕ, none, some, List, [], ◌∷◌}
use star.Platform.Udp.{Listener, Case, close, read_fails, accept, read, dispatch, close_conn}

-- A packet that the read loop gets and dispatches, or a call of a method that changes the listener.
pub data Event (Addr : Type 0) : Type 0 where
  packet : Addr → List ℕ → Event Addr
  loop_ends closes : Event Addr
  accepts : Case → Event Addr
  reads : ℕ → ℕ → Case → Event Addr
  closes_conn : ℕ → Event Addr

module _ {Addr : Type 0} (dec : Discrete Addr) where
  -- A call that blocks changes nothing yet.
  pub step : Listener Addr → Event Addr → Listener Addr
  step l (packet addr bytes) = (dispatch dec l addr bytes).0
  step l loop_ends = read_fails l
  step l closes = close l
  step l (accepts c) = elim (accept l c) [ none ↦ l | some r ↦ r.0 ]
  step l (reads id n c) = elim (read l id n c) [ none ↦ l | some r ↦ r.0 ]
  step l (closes_conn id) = close_conn dec l id

  pub run : Listener Addr → List (Event Addr) → Listener Addr
  run l [] = l
  run l (e ∷ es) = run (step l e) es
