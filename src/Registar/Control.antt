-- ===== src/Registar/Control.antt =====
-- internal/registar/control: what the registar asks of a client over its control stream
-- (controller.go), and how the client's agent answers (agent.go). HTTP itself is not modelled: a
-- request is sent or not, and an answer is its status code.
pub mod Laws
use star.Prelude.{ℕ, Bool, true, false, Option, none, some, List, [], ◌∷◌, ◌==◌, if◌then◌else◌}

-- Go errors, as far as `errors.Is` tells them apart: `wrapped` is `fmt.Errorf` with `%w`, and
-- `joined` is `errors.Join` of one or two errors that are not nil.
pub data Error : Type 0 where
  connect_failed : Error
  bad_status_code : ℕ → Error
  failed : Error
  wrapped : Error → Error
  joined_one : Error → Error
  joined : Error → Error → Error

abbrev pub status_ok : ℕ
status_ok = 200

abbrev pub status_bad_request : ℕ
status_bad_request = 400

-- `http.StatusPreconditionFailed`
abbrev pub status_code_connect_failed : ℕ
status_code_connect_failed = 412

abbrev pub status_internal_server_error : ℕ
status_internal_server_error = 500

-- How an exchange on the stream ends: the request cannot be written, no response can be read, or
-- there is one with its status.
pub data Exchange : Type 0 where
  unsent unanswered : Exchange
  answered : ℕ → Exchange

-- `ConnectTo`; `none` is the nil error.
unfoldable pub connect_to : Exchange → Option Error
connect_to unsent = some (wrapped failed)
connect_to unanswered = some (wrapped failed)
connect_to (answered status) =
    if status == status_ok
    then none
    else if status == status_code_connect_failed
    then some connect_failed
    else some (bad_status_code status)

-- `ConnectViaRelay`
unfoldable pub connect_via_relay : Exchange → Option Error
connect_via_relay unsent = some (wrapped failed)
connect_via_relay unanswered = some (wrapped failed)
connect_via_relay (answered status) =
    if status == status_ok then none else some (bad_status_code status)

-- `responseWriter`, as far as the status goes.
pub record ResponseWriter : Type 0 where
  pub status : ℕ

new_response_writer : ResponseWriter
new_response_writer = record { status = 0 }

write_header : ResponseWriter → ℕ → ResponseWriter
write_header rw' code = record rw' { status = code }

-- The status that `write` sends.
sent_status : ResponseWriter → ℕ
sent_status rw' = if rw'.status == 0 then status_ok else rw'.status

-- What the callback of `OnConnectTo` returns.
pub data Attempt : Type 0 where
  started : Bool → Attempt
  broken : Attempt

-- The handler of `POST /connect-to`; `decoded` says whether the body is a `ConnectCommand`.
handle_connect_to : Bool → Attempt → ResponseWriter → ResponseWriter
unfolding write_header
handle_connect_to false f w = write_header w status_bad_request
handle_connect_to true broken w = write_header w status_internal_server_error
handle_connect_to true (started false) w = write_header w status_code_connect_failed
handle_connect_to true (started true) w = write_header w status_ok

-- The handler of `POST /relay/{sessionID}`; the callback succeeds or not.
handle_relay : Bool → ResponseWriter → ResponseWriter
unfolding write_header
handle_relay true w = write_header w status_ok
handle_relay false w = write_header w status_internal_server_error

-- A request that `Serve` has read, with what its callback will return.
pub data Request : Type 0 where
  connect_to_request : Bool → Attempt → Request
  relay_request : Bool → Request
  other_request : Request

-- One turn of `Serve`: the mux picks the handler, and answers 404 where it has none.
pub serve_one : Request → ℕ
unfolding new_response_writer sent_status handle_connect_to handle_relay
serve_one (connect_to_request decoded f) =
    sent_status (handle_connect_to decoded f new_response_writer)
serve_one (relay_request ok) = sent_status (handle_relay ok new_response_writer)
serve_one other_request = sent_status (write_header new_response_writer 404)

-- The statuses that `Serve` writes until it reads no more requests.
pub serve : List Request → List ℕ
serve [] = []
serve (r ∷ rs) = serve_one r ∷ serve rs
