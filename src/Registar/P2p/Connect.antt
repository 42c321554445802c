-- ===== src/Registar/P2p/Connect.antt =====
-- `Connect` of internal/registar/p2p/connector.go: its loops run in a group whose context the first
-- error cancels, and hand a connection over on a channel without a buffer. What the loops do is in
-- Connector; here a loop hands over a connection, or ends with an error or nil.
pub mod Laws
pub mod Runs
pub mod Steps
use star.Prelude.{
  ℕ, ◌+◌, ◌-◌, Bool, true, false, ◌&&◌, ◌||◌, Option, none, some, List, [], ◌∷◌, length, ltb, ◌==◌,
  if◌then◌else◌,
}
use star.Registar.P2p.Errors.{Error, wrapped}
use star.Registar.P2p.Connector.{dial_targets}

-- Where `Connect` stands: in its select, or after it, with the connection that it took or without.
pub data Main : Type 0 where
  selecting ended : Main
  taken : ℕ → Main

-- `running` are the loops that have not returned; `first` is the error that `Wait` returns.
pub record Connect : Type 0 where
  pub running : ℕ
  pub main : Main
  pub first : Option Error
  pub cancelled : Bool

-- One loop accepts, and one dials each address.
unfoldable pub start : {Addr : Type 0} → Discrete Addr → Addr → Addr → Connect
start dec public_addr private_addr = record {
  running = 1 + length (dial_targets dec public_addr private_addr);
  main = selecting;
  first = none;
  cancelled = false;
}

-- A loop hands a connection over and returns, or returns an error or nil; the caller's context is
-- cancelled; `Connect` finds the context of the group done.
pub data Event : Type 0 where
  hands_over : ℕ → Event
  returns : Option Error → Event
  cancels sees_done : Event

abbrev pub first_of : Option Error → Option Error → Option Error
first_of none e = e
first_of (some e) later = some e

unfoldable pub ctx_done : Connect → Bool
ctx_done c = c.cancelled || elim c.first [ none ↦ false | some e ↦ true ]

-- A loop can hand over only while `Connect` is in its select.
unfoldable pub take : Main → Connect → ℕ → Connect
take selecting c conn = record c { running = c.running - 1; main = taken conn }
take ended c conn = c
take (taken other) c conn = c

unfoldable pub leave : Main → Connect → Connect
leave selecting c = record c { main = ended }
leave ended c = c
leave (taken conn) c = c

unfoldable pub step : Connect → Event → Connect
unfolding take leave ctx_done
step c (hands_over conn) = if c.running == 0 then c else take c.main c conn
step c (returns e) =
    if c.running == 0 then c else record c { running = c.running - 1; first = first_of c.first e }
step c cancels = record c { cancelled = true }
step c sees_done = if ctx_done c then leave c.main c else c

unfoldable pub run : Connect → List Event → Connect
unfolding step
run c [] = c
run c (e ∷ es) = run (step c e) es

-- What `Connect` returns, a connection and an error, once `Wait` does.
unfoldable pub value : Main → Option Error → Option (Option ℕ × Option Error)
value selecting first = none
value ended first = some (none, first)
value (taken conn) none = some (some conn, none)
value (taken conn) (some e) = some (none, some e)

unfoldable pub result : Connect → Option (Option ℕ × Option Error)
unfolding value
result c = if c.running == 0 then value c.main c.first else none

-- `listened` is the error of `ListenEarly`.
unfoldable pub connect :
    {Addr : Type 0}
    → Discrete Addr
    → Addr
    → Addr
    → Option Error
    → List Event
    → Option (Option ℕ × Option Error)
unfolding start run result
connect dec public_addr private_addr (some e) es = some (none, some (wrapped e))
connect dec public_addr private_addr none es = result (run (start dec public_addr private_addr) es)
