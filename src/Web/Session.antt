-- ===== src/Web/Session.antt =====
-- The session of internal/webserver/server.go and session.go: which page each handler answers with,
-- and which sessions are told to stop. A form is its outcome, none for errors; registering with the
-- registar succeeds or not.
pub mod Laws
use star.Prelude.{ℕ, suc, Bool, true, false, Option, none, some, List, [], ◌∷◌, ◌==◌, if◌then◌else◌}
use star.Web.Sse.{SseHandler, reset_all}

pub data Kind : Type 0 where
  host peer : Kind

-- The routes of routes.go and the pages behind them.
pub data Page : Type 0 where
  index host_form host_running peer_form peer_connected : Page

-- `activeSession`, with a number for its `done` channel.
pub record ActiveSession : Type 0 where
  pub kind : Kind
  pub done : ℕ

-- `Server`: the session, the log handler, the shared configuration, and the forms that are kept,
-- the newest first.
-- `stopping` are the sessions that handlers have taken out and not stopped yet, `stopped` those whose
-- `done` is closed, once for each close. Their goroutines end some time later, on their own.
pub record Server (Config Form Line : Type 0) : Type 0 where
  pub log_handler : SseHandler Line
  pub session : Option ActiveSession
  pub shared_config : Option Config
  pub cached : List (Page × Form)
  pub stopping : List ℕ
  pub stopped : List ℕ
  pub next_done : ℕ

-- What a handler answers: one of the pages, rendered, with whether it shows errors, or a redirect.
pub data Answer : Type 0 where
  render : Page → Bool → Answer
  redirect : Page → Answer

-- The mode field of the setup form.
pub data Mode : Type 0 where
  host_mode peer_mode other_mode : Mode

-- A request to one of the handlers.
pub data Request (Config Form : Type 0) : Type 0 where
  gets_index gets_host_form gets_host_running gets_peer_form gets_peer_connected :
      Request Config Form
  stops_host stops_peer : Request Config Form
  sets_up : Option (Form × Config) → Mode → Request Config Form
  starts_host starts_peer : Option Form → Bool → Request Config Form

-- `redirectToSession`
pub session_page : ActiveSession → Page
session_page s = elim s.kind [ host ↦ host_running | peer ↦ peer_connected ]

pub is_kind : Kind → ActiveSession → Bool
is_kind host s = elim s.kind [ host ↦ true | peer ↦ false ]
is_kind peer s = elim s.kind [ host ↦ false | peer ↦ true ]

-- A request up to its unlock, `Stop` up to its unlock, and the rest of a stop.
pub data Event (Config Form : Type 0) : Type 0 where
  requests : Request Config Form → Event Config Form
  shuts_down : Event Config Form
  finishes : ℕ → Event Config Form

abbrev pub count : ℕ → List ℕ → ℕ
count n [] = 0
count n (x ∷ xs) = if x == n then suc (count n xs) else count n xs

-- Without the first entry that is `n`.
pub remove : ℕ → List ℕ → List ℕ
remove n [] = []
remove n (x ∷ xs) = let rest = remove n xs in if x == n then xs else x ∷ rest

-- `activeSession.stop`: the channel is closed unless it is closed already.
pub close_done : ℕ → List ℕ → List ℕ
close_done n stopped = if count n stopped == 0 then n ∷ stopped else stopped

module _ {Config Form Line : Type 0} where
  -- `redirectIfSession` and the early return after it.
  guarded :
      Server Config Form Line → Server Config Form Line × Answer → Server Config Form Line × Answer
  guarded s next = elim s.session [
    | some active ↦ (s, redirect (session_page active))
    | none ↦ next
  ]

  pub handle_index : Server Config Form Line → Server Config Form Line × Answer
  unfolding guarded
  handle_index s = guarded s (s, render index false)

  -- `handleSetup`: the form and the configuration in it, and its mode.
  pub handle_setup :
      Server Config Form Line → Option (Form × Config) → Mode → Server Config Form Line × Answer
  unfolding guarded
  handle_setup s form mode = guarded s (elim form [
    | none ↦ (s, render index true)
    | some (values, config) ↦
        let s' : Server Config Form Line = record s {
          cached = (index, values) ∷ s.cached;
          shared_config = some config;
        } in
        elim mode [
          | host_mode ↦ (s', redirect host_form)
          | peer_mode ↦ (s', redirect peer_form)
          | other_mode ↦ (s', redirect index)
        ]
  ])

  pub handle_host_form : Server Config Form Line → Server Config Form Line × Answer
  unfolding guarded
  handle_host_form s = guarded s (s, render host_form false)

  pub handle_peer_form : Server Config Form Line → Server Config Form Line × Answer
  unfolding guarded
  handle_peer_form s = guarded s (s, render peer_form false)

  -- The session that is stored, with its goroutines, once the forwarder has registered.
  begin : Server Config Form Line → Kind → Server Config Form Line
  begin s kind = record s {
    session = some (record { kind = kind; done = s.next_done });
    next_done = suc s.next_done;
  }

  pub handle_host_start :
      Server Config Form Line → Option Form → Bool → Server Config Form Line × Answer
  unfolding guarded begin
  handle_host_start s form registered = guarded s (elim form [
    | none ↦ (s, render host_form true)
    | some values ↦
        let s' : Server Config Form Line = record s { cached = (host_form, values) ∷ s.cached } in
        if registered then (begin s' host, redirect host_running) else (s', render host_form true)
  ])

  pub handle_peer_start :
      Server Config Form Line → Option Form → Bool → Server Config Form Line × Answer
  unfolding guarded begin
  handle_peer_start s form joined = guarded s (elim form [
    | none ↦ (s, render peer_form true)
    | some values ↦
        let s' : Server Config Form Line = record s { cached = (peer_form, values) ∷ s.cached } in
        if joined then (begin s' peer, redirect peer_connected) else (s', render peer_form true)
  ])

  -- The page of a running session, for sessions of its kind.
  shows : Server Config Form Line → Kind → Page → Server Config Form Line × Answer
  shows s kind page = elim s.session [
    | none ↦ (s, redirect index)
    | some active ↦ if is_kind kind active then (s, render page false) else (s, redirect index)
  ]

  pub handle_host_running : Server Config Form Line → Server Config Form Line × Answer
  unfolding shows
  handle_host_running s = shows s host host_running

  pub handle_peer_connected : Server Config Form Line → Server Config Form Line × Answer
  unfolding shows
  handle_peer_connected s = shows s peer peer_connected

  -- The part of `Stop` and of the handlers that stop a session under the lock: they take it out.
  pub stop : Server Config Form Line → Server Config Form Line
  stop s = elim s.session [
    | none ↦ s
    | some active ↦ record s { session = none; stopping = active.done ∷ s.stopping }
  ]

  -- The part after the lock, of a handler that has taken the session with this number: `stop` of the
  -- session, and the reset of the log.
  pub finish_stop : Server Config Form Line → ℕ → Server Config Form Line
  unfolding remove close_done
  finish_stop s done = if count done s.stopping == 0 then s else record s {
    stopping = remove done s.stopping;
    stopped = close_done done s.stopped;
    log_handler = reset_all s.log_handler;
  }

  -- The handlers up to the unlock; they redirect after `finish_stop`.
  pub handle_host_stop : Server Config Form Line → Server Config Form Line × Answer
  handle_host_stop s = (stop s, redirect index)

  pub handle_peer_stop : Server Config Form Line → Server Config Form Line × Answer
  handle_peer_stop s = (stop s, redirect index)

  pub serve : Server Config Form Line → Request Config Form → Server Config Form Line × Answer
  serve s gets_index = handle_index s
  serve s gets_host_form = handle_host_form s
  serve s gets_host_running = handle_host_running s
  serve s gets_peer_form = handle_peer_form s
  serve s gets_peer_connected = handle_peer_connected s
  serve s stops_host = handle_host_stop s
  serve s stops_peer = handle_peer_stop s
  serve s (sets_up form mode) = handle_setup s form mode
  serve s (starts_host form registered) = handle_host_start s form registered
  serve s (starts_peer form joined) = handle_peer_start s form joined

  pub step : Server Config Form Line → Event Config Form → Server Config Form Line
  step s (requests r) = (serve s r).0
  step s shuts_down = stop s
  step s (finishes done) = finish_stop s done

  pub run : Server Config Form Line → List (Event Config Form) → Server Config Form Line
  unfolding step
  run s [] = s
  run s (e ∷ es) = run (step s e) es

  -- `New`
  unfoldable pub new_server : SseHandler Line → Server Config Form Line
  new_server log_handler = record {
    log_handler = log_handler;
    session = none;
    shared_config = none;
    cached = [];
    stopping = [];
    stopped = [];
    next_done = 0;
  }
