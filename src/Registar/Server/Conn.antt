-- ===== src/Registar/Server/Conn.antt =====
-- `ServeQUICConn` of internal/registar/server.go: two loops accept streams in a group, which runs a
-- handler for each stream; when all have returned, the connection is closed with a code.
pub mod Laws
use star.Prelude.{
  ℕ, ◌+◌, ◌-◌, Bool, true, false, ◌&&◌, ◌||◌, not, Option, none, some, List, [], ◌∷◌, ◌==◌,
  if◌then◌else◌,
}
use star.Registar.P2p.Errors.{Error, wrapped, is_remote_application_error}
use star.Registar.Client.{err_code_client_closed}

-- `errCodeAcceptStream`
abbrev pub err_code_accept_stream : ℕ
err_code_accept_stream = 0xabcdef

unfoldable pub is_remote_client_closed : Error → Bool
is_remote_client_closed e = is_remote_application_error e err_code_client_closed

-- The error with which a loop returns.
unfoldable pub loop_error : Error → Option Error
unfolding is_remote_client_closed
loop_error e = if is_remote_client_closed e then none else some (wrapped e)

-- `bidi` and `uni` are the loops that still run; `first` is the error that `Wait` returns.
pub record Conn : Type 0 where
  pub bidi : Bool
  pub uni : Bool
  pub handlers : ℕ
  pub first : Option Error

unfoldable pub new_conn : Conn
new_conn = record { bidi = true; uni = true; handlers = 0; first = none }

pub data Event : Type 0 where
  stream uni_stream handled : Event
  accept_fails accept_uni_fails : Error → Event

abbrev pub first_of : Option Error → Option Error → Option Error
first_of none e = e
first_of (some e) later = some e

unfoldable pub step : Conn → Event → Conn
unfolding loop_error
step c stream = if c.bidi then record c { handlers = c.handlers + 1 } else c
step c uni_stream = if c.uni then record c { handlers = c.handlers + 1 } else c
step c handled = record c { handlers = c.handlers - 1 }
step c (accept_fails e) =
    if c.bidi then record c { bidi = false; first = first_of c.first (loop_error e) } else c
step c (accept_uni_fails e) =
    if c.uni then record c { uni = false; first = first_of c.first (loop_error e) } else c

unfoldable pub run : Conn → List Event → Conn
unfolding step
run c [] = c
run c (e ∷ es) = run (step c e) es

-- The code of the close and the error that is returned, once `Wait` returns.
unfoldable pub served : Conn → Option (ℕ × Option Error)
served c =
    if c.bidi || c.uni || not (c.handlers == 0)
    then none
    else elim c.first [ none ↦ some (0, none) | some e ↦ some (err_code_accept_stream, some e) ]
