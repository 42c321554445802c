-- ===== src/Forwarder/Link/Steps.antt =====
-- One step of the link of internal/forwarder/link.go.
use mathlib.Core.List.{append-nil}
use star.Prelude.{
  ℕ, ◌≡◌, ◌≢◌, true, false, ◌||◌, none, some, List, [], ◌∷◌, ◌++◌, take, if◌then◌else◌, arith,
}
use star.Forwarder.Link.{
  LinkError, idle_timeout, bytes, deadline_exceeded, read_error, Event, polls, receives, cancels,
  Link, ctx_done, udp_fails, datagrams_fail, buffer_size, poll, receive, step,
}

-- The packets that the game sent and the datagrams that came from the other side.
unfoldable pub packets_of : List Event → List (List ℕ)
packets_of [] = []
packets_of (polls now (bytes packet) sent next ∷ es) = take buffer_size packet ∷ packets_of es
packets_of (polls now deadline_exceeded sent next ∷ es) = packets_of es
packets_of (polls now read_error sent next ∷ es) = packets_of es
packets_of (receives datagram written ∷ es) = packets_of es
packets_of (cancels ∷ es) = packets_of es

unfoldable pub datagrams_of : List Event → List (List ℕ)
datagrams_of [] = []
datagrams_of (polls now result sent next ∷ es) = datagrams_of es
datagrams_of (receives (some datagram) written ∷ es) = datagram ∷ datagrams_of es
datagrams_of (receives none written ∷ es) = datagrams_of es
datagrams_of (cancels ∷ es) = datagrams_of es

-- Facts of one step, by the kind of event.
module _ (timeout : ℕ) (l : Link) where
  pub step_first :
      (x : Event) (e : LinkError) → l.first ≡ some e → (step timeout l x).first ≡ some e
  unfolding step poll receive udp_fails datagrams_fail
  step_first (polls now (bytes packet) sent next) e h = ground arith
  step_first (polls now deadline_exceeded sent next) e h = ground arith
  step_first (polls now read_error sent next) e h = ground arith
  step_first (receives (some d) true) e h = ground arith
  step_first (receives (some d) false) e h = ground arith
  step_first (receives none written) e h = ground arith
  step_first cancels e h = h

  -- A packet is sent on unless the goroutine has returned.
  pub step_to_peer :
      (x : Event)
      → (step timeout l x).to_peer
        ≡ (if (step timeout l x).udp_done then l.to_peer else l.to_peer ++ packets_of (x ∷ []))
  unfolding step poll receive udp_fails datagrams_fail packets_of
  step_to_peer (polls now (bytes packet) sent next) = ground arith
  step_to_peer (polls now deadline_exceeded sent next) = ground (arith, append-nil l.to_peer)
  step_to_peer (polls now read_error sent next) = ground (arith, append-nil l.to_peer)
  step_to_peer (receives (some d) true) = ground (arith, append-nil l.to_peer)
  step_to_peer (receives (some d) false) = ground (arith, append-nil l.to_peer)
  step_to_peer (receives none written) = ground (arith, append-nil l.to_peer)
  step_to_peer cancels = ground (arith, append-nil l.to_peer)

  pub step_to_game :
      (x : Event)
      → (step timeout l x).to_game ≡ (
          if (step timeout l x).datagrams_done
          then l.to_game
          else l.to_game ++ datagrams_of (x ∷ []))
  unfolding step poll receive udp_fails datagrams_fail datagrams_of
  step_to_game (polls now (bytes packet) sent next) = ground (arith, append-nil l.to_game)
  step_to_game (polls now deadline_exceeded sent next) = ground (arith, append-nil l.to_game)
  step_to_game (polls now read_error sent next) = ground (arith, append-nil l.to_game)
  step_to_game (receives (some d) true) = ground arith
  step_to_game (receives (some d) false) = ground arith
  step_to_game (receives none written) = ground (arith, append-nil l.to_game)
  step_to_game cancels = ground (arith, append-nil l.to_game)

  pub step_udp_done : (x : Event) → l.udp_done ≡ true → (step timeout l x).udp_done ≡ true
  unfolding step poll receive udp_fails datagrams_fail
  step_udp_done (polls now result sent next) h = ground arith
  step_udp_done (receives (some d) true) h = ground arith
  step_udp_done (receives (some d) false) h = ground arith
  step_udp_done (receives none written) h = ground arith
  step_udp_done cancels h = h

  pub step_datagrams_done :
      (x : Event) → l.datagrams_done ≡ true → (step timeout l x).datagrams_done ≡ true
  unfolding step poll receive udp_fails datagrams_fail
  step_datagrams_done (polls now (bytes packet) sent next) h = ground arith
  step_datagrams_done (polls now deadline_exceeded sent next) h = ground arith
  step_datagrams_done (polls now read_error sent next) h = ground arith
  step_datagrams_done (receives d written) h = ground arith
  step_datagrams_done cancels h = h

  -- Who returns leaves an error.
  pub step_told :
      (x : Event)
      → ((l.udp_done || l.datagrams_done) ≡ true → l.first ≢ none)
      → ((step timeout l x).udp_done || (step timeout l x).datagrams_done) ≡ true
      → (step timeout l x).first ≢ none
  unfolding step poll receive udp_fails datagrams_fail
  step_told (polls now (bytes packet) sent next) t d h = ground (arith, t)
  step_told (polls now deadline_exceeded sent next) t d h = ground (arith, t)
  step_told (polls now read_error sent next) t d h = ground (arith, t)
  step_told (receives (some x) true) t d h = ground (arith, t)
  step_told (receives (some x) false) t d h = ground (arith, t)
  step_told (receives none written) t d h = ground (arith, t)
  step_told cancels t d h = ground (arith, t)

  pub step-ctx_done : (x : Event) → ctx_done l ≡ true → ctx_done (step timeout l x) ≡ true
  unfolding step poll receive udp_fails datagrams_fail ctx_done
  step-ctx_done (polls now (bytes packet) sent next) h = ground arith
  step-ctx_done (polls now deadline_exceeded sent next) h = ground arith
  step-ctx_done (polls now read_error sent next) h = ground arith
  step-ctx_done (receives (some d) true) h = ground arith
  step-ctx_done (receives (some d) false) h = ground arith
  step-ctx_done (receives none written) h = ground arith
  step-ctx_done cancels h = ground arith

  pub step_not_idle :
      (x : Event)
      → timeout ≡ 0
      → l.first ≢ some idle_timeout
      → (step timeout l x).first ≢ some idle_timeout
  unfolding step poll receive udp_fails datagrams_fail
  step_not_idle (polls now (bytes packet) sent next) z n h = ground arith
  step_not_idle (polls now deadline_exceeded sent next) z n h = ground arith
  step_not_idle (polls now read_error sent next) z n h = ground arith
  step_not_idle (receives (some d) true) z n h = ground arith
  step_not_idle (receives (some d) false) z n h = ground arith
  step_not_idle (receives none written) z n h = ground arith
  step_not_idle cancels z n h = n h
