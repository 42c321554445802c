-- ===== src/Forwarder/Link/Ends.antt =====
-- How the link of internal/forwarder/link.go ends.
use star.Prelude.{
  ℕ, ◌+◌, ◌≡◌, ◌≢◌, refl, ap, Bool, true, false, ◌&&◌, ◌||◌, Bool-cases, inl, inr, none, some,
  Option-cases, List, [], ◌∷◌, ltb, if◌then◌else◌, arith,
}
use star.Forwarder.Link.{
  LinkError, ReadResult, idle_timeout, Event, polls, receives, cancels, deadline_exceeded, Link,
  start, ctx_done, udp_fails, datagrams_fail, poll, receive, step, run, wait,
}
use star.Forwarder.Link.Steps.{
  step_first, step_udp_done, step_datagrams_done, step_told, step-ctx_done, step_not_idle,
}

-- Some round of the read loop, and some failure of `ReceiveDatagram`, which a context that is done
-- brings about.
abbrev pub HasPoll : List Event → Type 0
HasPoll [] = ⊥
HasPoll (polls now result sent next ∷ es) = Unit
HasPoll (receives d written ∷ es) = HasPoll es
HasPoll (cancels ∷ es) = HasPoll es

abbrev pub HasFailedReceive : List Event → Type 0
HasFailedReceive [] = ⊥
HasFailedReceive (polls now result sent next ∷ es) = HasFailedReceive es
HasFailedReceive (receives none written ∷ es) = Unit
HasFailedReceive (receives (some d) written ∷ es) = HasFailedReceive es
HasFailedReceive (cancels ∷ es) = HasFailedReceive es

module _ (timeout : ℕ) where
  udp_stays : (l : Link) (es : List Event) → l.udp_done ≡ true → (run timeout l es).udp_done ≡ true
  unfolding run
  udp_stays l [] h = h
  udp_stays l (x ∷ es) h = udp_stays (step timeout l x) es (step_udp_done timeout l x h)

  datagrams_stay :
      (l : Link) (es : List Event)
      → l.datagrams_done ≡ true
      → (run timeout l es).datagrams_done ≡ true
  unfolding run
  datagrams_stay l [] h = h
  datagrams_stay l (x ∷ es) h =
      datagrams_stay (step timeout l x) es (step_datagrams_done timeout l x h)

  at_poll :
      (l : Link) (now : ℕ) (result : ReadResult) (sent : Bool) (next : ℕ)
      → ctx_done l ≡ true
      → (step timeout l (polls now result sent next)).udp_done ≡ true
  unfolding step poll udp_fails
  at_poll l now result sent next h = ground arith

  at_receive :
      (l : Link) (written : Bool) → (step timeout l (receives none written)).datagrams_done ≡ true
  unfolding step receive datagrams_fail
  at_receive l written = ground arith

  start_told :
      (now : ℕ)
      → ((start now).udp_done || (start now).datagrams_done) ≡ true
      → (start now).first ≢ none
  unfolding start
  start_told now h = absurd (ground arith)

  poll_ends :
      (l : Link) (es : List Event)
      → ctx_done l ≡ true
      → HasPoll es
      → (run timeout l es).udp_done ≡ true
  unfolding run
  poll_ends l [] h p = absurd p
  poll_ends l (polls now result sent next ∷ es) h p =
      udp_stays (step timeout l (polls now result sent next)) es (at_poll l now result sent next h)
  poll_ends l (receives d written ∷ es) h p =
      poll_ends (step timeout l (receives d written)) es
        (step-ctx_done timeout l (receives d written) h) p
  poll_ends l (cancels ∷ es) h p =
      poll_ends (step timeout l cancels) es (step-ctx_done timeout l cancels h) p

  receive_ends :
      (l : Link) (es : List Event) → HasFailedReceive es → (run timeout l es).datagrams_done ≡ true
  unfolding run
  receive_ends l [] p = absurd p
  receive_ends l (polls now result sent next ∷ es) p =
      receive_ends (step timeout l (polls now result sent next)) es p
  receive_ends l (receives none written ∷ es) p =
      datagrams_stay (step timeout l (receives none written)) es (at_receive l written)
  receive_ends l (receives (some d) written ∷ es) p =
      receive_ends (step timeout l (receives (some d) written)) es p
  receive_ends l (cancels ∷ es) p = receive_ends (step timeout l cancels) es p

  run_told :
      (l : Link) (es : List Event)
      → ((l.udp_done || l.datagrams_done) ≡ true → l.first ≢ none)
      → ((run timeout l es).udp_done || (run timeout l es).datagrams_done) ≡ true
      → (run timeout l es).first ≢ none
  unfolding run
  run_told l [] told = told
  run_told l (x ∷ es) told = run_told (step timeout l x) es (step_told timeout l x told)

  -- From a state of a link whose context is done, by an error or by the caller, it returns after
  -- one more round of the read loop and a failure to receive, whatever else happens before,
  -- between and after. What it returns is an error, never nil.
  pub wait-run :
      (now : ℕ) (before es : List Event)
      → ctx_done (run timeout (start now) before) ≡ true
      → HasPoll es
      → HasFailedReceive es
      → (e : LinkError) × (wait (run timeout (run timeout (start now) before) es) ≡ some (some e))
  unfolding wait
  wait-run now before es h p q =
      let l = run timeout (start now) before in
      let udp = poll_ends l es h p in
      let datagrams = receive_ends l es q in
      let told = run_told l es (run_told (start now) before (start_told now)) (ground arith) in
      elim (Option-cases (run timeout l es).first) [
        | inl nothing ↦ absurd (told nothing)
        | inr (e, first) ↦ (e, ground arith)
      ]

run_not_idle :
    (l : Link) (es : List Event)
    → l.first ≢ some idle_timeout
    → (run 0 l es).first ≢ some idle_timeout
unfolding run
run_not_idle l [] h = h
run_not_idle l (x ∷ es) h = run_not_idle (step 0 l x) es (step_not_idle 0 l x refl h)

-- Rounds of the read loop at these times, in which nothing arrives.
abbrev pub silence : List ℕ → List Event
silence [] = []
silence (now ∷ ticks) = polls now deadline_exceeded true now ∷ silence ticks

abbrev pub any_after : ℕ → List ℕ → Bool
any_after limit [] = false
any_after limit (now ∷ ticks) = ltb limit now || any_after limit ticks

module _ (timeout : ℕ) where
  stays :
      (l : Link) (es : List Event) (e : LinkError)
      → l.first ≡ some e
      → (run timeout l es).first ≡ some e
  unfolding run
  stays l [] e h = h
  stays l (x ∷ es) e h = stays (step timeout l x) es e (step_first timeout l x e h)

  tick_late :
      (l : Link) (now : ℕ)
      → ctx_done l ≡ false
      → l.udp_done ≡ false
      → l.first ≡ none
      → (ltb 0 timeout && ltb (l.last_read + timeout) now) ≡ true
      → (step timeout l (polls now deadline_exceeded true now)).first ≡ some idle_timeout
  unfolding step poll udp_fails
  tick_late l now c u f h = ground arith

  tick_early :
      (l : Link) (now : ℕ)
      → ctx_done l ≡ false
      → l.udp_done ≡ false
      → (ltb 0 timeout && ltb (l.last_read + timeout) now) ≡ false
      → step timeout l (polls now deadline_exceeded true now) ≡ l
  unfolding step poll udp_fails
  tick_early l now c u h = ground arith

  silence_lem :
      (l : Link) (ticks : List ℕ)
      → ctx_done l ≡ false
      → l.udp_done ≡ false
      → l.first ≡ none
      → (run timeout l (silence ticks)).first ≡ (
          if ltb 0 timeout && any_after (l.last_read + timeout) ticks
          then some idle_timeout
          else none)
  unfolding run
  silence_lem l [] c u f = ground arith
  silence_lem l (now ∷ ticks) c u f =
      elim (Bool-cases (ltb 0 timeout && ltb (l.last_read + timeout) now)) [
        | inl late ↦
            let idle = tick_late l now c u f late in
            ground (
              arith,
              stays (step timeout l (polls now deadline_exceeded true now)) (silence ticks)
                  idle_timeout idle,
            )
        | inr early ↦
            let same =
              ap (λ k. (run timeout k (silence ticks)).first) (tick_early l now c u early) in
            ground (arith, same, silence_lem l ticks c u f)
      ]

  -- While the game is silent, a link from a time on ends with the idle timeout exactly if it has
  -- one, and looks at the clock when more than the timeout has passed since.
  pub silence-idle_timeout :
      (now : ℕ) (ticks : List ℕ)
      → (run timeout (start now) (silence ticks)).first
        ≡ (if ltb 0 timeout && any_after (now + timeout) ticks then some idle_timeout else none)
  unfolding start ctx_done
  silence-idle_timeout now ticks = silence_lem (start now) ticks refl refl refl

-- A link without a timeout, as a host has it, never ends with the idle timeout.
pub run-start_not_idle :
    (now : ℕ) (es : List Event) → (run 0 (start now) es).first ≢ some idle_timeout
unfolding start
run-start_not_idle now es = run_not_idle (start now) es (λ e. ground (arith, e))
