-- ===== src/Web/Session/Laws.antt =====
-- Each session of internal/webserver/server.go is stopped by one handler, once.
use star.Prelude.{
  ℕ, ◌≡◌, ◌+◌, ◌-◌, ltb, ◌==◌, if◌then◌else◌, inl, inr, Bool, Option, none, some, List, [], ◌∷◌,
  arith, Option-cases,
}
use star.Web.Sse.{SseHandler}
use star.Web.Session.{
  Kind, host, peer, Page, host_running, peer_connected, ActiveSession, Server, Answer, Mode,
  Request, gets_index, gets_host_form, gets_host_running, gets_peer_form, gets_peer_connected,
  stops_host, stops_peer, sets_up, starts_host, starts_peer, guarded, begin, shows, stop, serve,
  run, new_server, Event, requests, shuts_down, finishes, count, remove, close_done, finish_stop,
  step, handle_index, handle_setup, handle_host_form, handle_peer_form, handle_host_start,
  handle_peer_start, handle_host_running, handle_peer_connected, handle_host_stop, handle_peer_stop,
}

abbrev pub is_current : ℕ → Option ActiveSession → ℕ
is_current n none = 0
is_current n (some s) = if s.done == n then 1 else 0

count-remove :
    (d n : ℕ) (xs : List ℕ)
    → count n (remove d xs) ≡ (if d == n then count n xs - 1 else count n xs)
unfolding remove
count-remove d n [] = ground arith
count-remove d n (x ∷ xs) = ground (arith, count-remove d n xs)

module _ {Config Form Line : Type 0} where
  -- Each session that was started is the current one, or being stopped, or stopped.
  pub IsTidy : Server Config Form Line → Type 0
  IsTidy s =
      (n : ℕ)
      → is_current n s.session + count n s.stopping + count n s.stopped
        ≡ (if ltb n s.next_done then 1 else 0)

  guarded-IsTidy :
      (s : Server Config Form Line) (next : Server Config Form Line × Answer)
      → IsTidy s
      → (s.session ≡ none → IsTidy next.0)
      → IsTidy (guarded s next).0
  unfolding guarded IsTidy
  guarded-IsTidy s next h k = elim (Option-cases s.session) [
    | inl free ↦ ground (arith, k free)
    | inr (active, busy) ↦ ground arith
  ]

  stop-IsTidy : (s : Server Config Form Line) → IsTidy s → IsTidy (stop s)
  unfolding stop IsTidy
  stop-IsTidy s h = elim (Option-cases s.session) [
    | inl free ↦ ground arith
    | inr (active, busy) ↦ ground arith
  ]

  shows_same : (s : Server Config Form Line) (kind : Kind) (page : Page) → (shows s kind page).0 ≡ s
  unfolding shows
  shows_same s kind page = elim (Option-cases s.session) [
    | inl free ↦ ground arith
    | inr (active, busy) ↦ ground arith
  ]

  setup-IsTidy :
      (s : Server Config Form Line) (form : Option (Form × Config)) (mode : Mode)
      → IsTidy s
      → IsTidy (handle_setup s form mode).0
  unfolding handle_setup IsTidy
  setup-IsTidy s form mode h = guarded-IsTidy s _ h (λ free. ground arith)

  host_start-IsTidy :
      (s : Server Config Form Line) (form : Option Form) (registered : Bool)
      → IsTidy s
      → IsTidy (handle_host_start s form registered).0
  unfolding handle_host_start begin IsTidy
  host_start-IsTidy s form registered h = guarded-IsTidy s _ h (λ free. ground arith)

  peer_start-IsTidy :
      (s : Server Config Form Line) (form : Option Form) (joined : Bool)
      → IsTidy s
      → IsTidy (handle_peer_start s form joined).0
  unfolding handle_peer_start begin IsTidy
  peer_start-IsTidy s form joined h = guarded-IsTidy s _ h (λ free. ground arith)

  serve-IsTidy :
      (s : Server Config Form Line) (r : Request Config Form) → IsTidy s → IsTidy (serve s r).0
  unfolding serve handle_index handle_host_form handle_peer_form handle_host_running
      handle_peer_connected handle_host_stop handle_peer_stop
  serve-IsTidy s gets_index h = guarded-IsTidy s _ h (λ free. h)
  serve-IsTidy s gets_host_form h = guarded-IsTidy s _ h (λ free. h)
  serve-IsTidy s gets_peer_form h = guarded-IsTidy s _ h (λ free. h)
  serve-IsTidy s gets_host_running h = rw (shows_same s host host_running) h
  serve-IsTidy s gets_peer_connected h = rw (shows_same s peer peer_connected) h
  serve-IsTidy s stops_host h = stop-IsTidy s h
  serve-IsTidy s stops_peer h = stop-IsTidy s h
  serve-IsTidy s (sets_up form mode) h = setup-IsTidy s form mode h
  serve-IsTidy s (starts_host form registered) h = host_start-IsTidy s form registered h
  serve-IsTidy s (starts_peer form joined) h = peer_start-IsTidy s form joined h

  finish_stop-IsTidy : (s : Server Config Form Line) (d : ℕ) → IsTidy s → IsTidy (finish_stop s d)
  unfolding finish_stop IsTidy close_done
  finish_stop-IsTidy s d h n = ground (arith, h n, h d, count-remove d n s.stopping)

  step-IsTidy : (s : Server Config Form Line) (e : Event Config Form) → IsTidy s → IsTidy (step s e)
  unfolding step
  step-IsTidy s (requests r) h = serve-IsTidy s r h
  step-IsTidy s shuts_down h = stop-IsTidy s h
  step-IsTidy s (finishes d) h = finish_stop-IsTidy s d h

  run-IsTidy :
      (s : Server Config Form Line) (es : List (Event Config Form)) → IsTidy s → IsTidy (run s es)
  unfolding run
  run-IsTidy s [] h = h
  run-IsTidy s (e ∷ es) h = run-IsTidy (step s e) es (step-IsTidy s e h)

  -- Whatever requests come and however the parts of a stop interleave with them, each session that was
  -- started is one of three: the session of the server, taken out by one handler that is to stop it, or
  -- stopped, with its channel closed once.
  pub run-new_server :
      (log_handler : SseHandler Line) (es : List (Event Config Form)) (n : ℕ)
      → is_current n (run (new_server log_handler) es).session
          + count n (run (new_server log_handler) es).stopping
          + count n (run (new_server log_handler) es).stopped
        ≡ (if ltb n (run (new_server log_handler) es).next_done then 1 else 0)
  unfolding IsTidy new_server
  run-new_server log_handler es n = run-IsTidy (new_server log_handler) es (λ k. ground arith) n
