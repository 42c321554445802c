-- ===== src/Forwarder/Link/Carries.antt =====
-- What the link of internal/forwarder/link.go carries.
use mathlib.Core.List.{append-nil, append_assoc}
use star.Prelude.{
  ℕ, ◌≡◌, ◌≢◌, some, ◌||◌, refl, sym, ap, ◌∙◌, true, false, Bool-cases, inl, inr, none, List, [],
  ◌∷◌, ◌++◌, arith, Option-cases,
}
use star.Forwarder.Link.{
  Event, polls, receives, cancels, bytes, deadline_exceeded, read_error, Link, start, step, run,
}
use star.Forwarder.Link.Steps.{
  packets_of, datagrams_of, step_first, step_to_peer, step_to_game, step_udp_done,
  step_datagrams_done, step_told,
}

packets_of-cons :
    (x : Event) (es : List Event) → packets_of (x ∷ es) ≡ packets_of (x ∷ []) ++ packets_of es
unfolding packets_of
packets_of-cons (polls now (bytes packet) sent next) es = refl
packets_of-cons (polls now deadline_exceeded sent next) es = refl
packets_of-cons (polls now read_error sent next) es = refl
packets_of-cons (receives d written) es = refl
packets_of-cons cancels es = refl

datagrams_of-cons :
    (x : Event) (es : List Event) → datagrams_of (x ∷ es) ≡ datagrams_of (x ∷ []) ++ datagrams_of es
unfolding datagrams_of
datagrams_of-cons (polls now result sent next) es = refl
datagrams_of-cons (receives (some d) written) es = refl
datagrams_of-cons (receives none written) es = refl
datagrams_of-cons cancels es = refl

none_of : packets_of [] ≡ []
unfolding packets_of
none_of = refl

no_datagrams : datagrams_of [] ≡ []
unfolding datagrams_of
no_datagrams = refl

not_done :
    (l : Link)
    → ((l.udp_done || l.datagrams_done) ≡ true → l.first ≢ none)
    → l.first ≡ none
    → (l.udp_done || l.datagrams_done) ≡ false
not_done l told up = elim (Bool-cases (l.udp_done || l.datagrams_done)) [
  | inl d ↦ absurd (told d up)
  | inr d ↦ d
]

module _ (timeout : ℕ) where
  stopped_to_peer :
      (l : Link) (es : List Event) → l.udp_done ≡ true → (run timeout l es).to_peer ≡ l.to_peer
  unfolding run
  stopped_to_peer l [] h = refl
  stopped_to_peer l (x ∷ es) h =
      let still = step_udp_done timeout l x h in
      stopped_to_peer (step timeout l x) es still ∙ step_to_peer timeout l x ∙ rw still refl

  stopped_to_game :
      (l : Link) (es : List Event)
      → l.datagrams_done ≡ true
      → (run timeout l es).to_game ≡ l.to_game
  unfolding run
  stopped_to_game l [] h = refl
  stopped_to_game l (x ∷ es) h =
      let still = step_datagrams_done timeout l x h in
      stopped_to_game (step timeout l x) es still ∙ step_to_game timeout l x ∙ rw still refl

  -- What is carried on from a state, and what is lost.
  run_to_peer :
      (l : Link) (es : List Event)
      → (taken : List (List ℕ)) × (rest : List (List ℕ)) × ((run timeout l es).to_peer
          ≡ l.to_peer ++ taken)
        × (packets_of es ≡ taken ++ rest)
  unfolding run
  run_to_peer l [] = ([], [], sym (append-nil l.to_peer), none_of)
  run_to_peer l (x ∷ es) = elim (Bool-cases (step timeout l x).udp_done) [
    | inl done ↦ (
      [],
      packets_of (x ∷ es),
      stopped_to_peer (step timeout l x) es done
          ∙ step_to_peer timeout l x
          ∙ rw done (sym (append-nil l.to_peer)),
      refl,
    )
    | inr more ↦
        let (taken, rest, sent, all) = run_to_peer (step timeout l x) es in
        let own = packets_of (x ∷ []) in
        (
          own ++ taken,
          rest,
          sent
              ∙ ap (λ xs. xs ++ taken) (step_to_peer timeout l x ∙ rw more refl)
              ∙ append_assoc l.to_peer own taken,
          packets_of-cons x es ∙ ap (λ xs. own ++ xs) all ∙ sym (append_assoc own taken rest),
        )
  ]

  run_to_game :
      (l : Link) (es : List Event)
      → (taken : List (List ℕ)) × (rest : List (List ℕ)) × ((run timeout l es).to_game
          ≡ l.to_game ++ taken)
        × (datagrams_of es ≡ taken ++ rest)
  unfolding run
  run_to_game l [] = ([], [], sym (append-nil l.to_game), no_datagrams)
  run_to_game l (x ∷ es) = elim (Bool-cases (step timeout l x).datagrams_done) [
    | inl done ↦ (
      [],
      datagrams_of (x ∷ es),
      stopped_to_game (step timeout l x) es done
          ∙ step_to_game timeout l x
          ∙ rw done (sym (append-nil l.to_game)),
      refl,
    )
    | inr more ↦
        let (taken, rest, sent, all) = run_to_game (step timeout l x) es in
        let own = datagrams_of (x ∷ []) in
        (
          own ++ taken,
          rest,
          sent
              ∙ ap (λ xs. xs ++ taken) (step_to_game timeout l x ∙ rw more refl)
              ∙ append_assoc l.to_game own taken,
          datagrams_of-cons x es ∙ ap (λ xs. own ++ xs) all ∙ sym (append_assoc own taken rest),
        )
  ]

  -- In each direction, what a link has written is a first part of what it has read: in order,
  -- nothing twice, and nothing else; packets of the game are cut to the buffer's size.
  pub run-start_prefix :
      (now : ℕ) (es : List Event)
      → ((rest : List (List ℕ)) × (packets_of es ≡ (run timeout (start now) es).to_peer ++ rest))
        × ((rest : List (List ℕ)) × (datagrams_of es
              ≡ (run timeout (start now) es).to_game ++ rest))
  unfolding start
  run-start_prefix now es =
      let (taken, rest, sent, all) = run_to_peer (start now) es in
      let (taken_back, rest_back, written, all_back) = run_to_game (start now) es in
      (
        (rest, all ∙ ap (λ xs. xs ++ rest) (sym sent)),
        (rest_back, all_back ∙ ap (λ xs. xs ++ rest_back) (sym written)),
      )

  first_stays : (l : Link) (es : List Event) → (run timeout l es).first ≡ none → l.first ≡ none
  unfolding run
  first_stays l [] h = h
  first_stays l (x ∷ es) h = elim (Option-cases l.first) [
    | inl none_yet ↦ none_yet
    | inr (e, told) ↦
        let gone = first_stays (step timeout l x) es h in
        let stays = step_first timeout l x e told in absurd (ground (arith, gone, stays))
  ]

  run_all :
      (l : Link) (es : List Event)
      → ((l.udp_done || l.datagrams_done) ≡ true → l.first ≢ none)
      → (run timeout l es).first ≡ none
      → ((run timeout l es).to_peer ≡ l.to_peer ++ packets_of es)
        × ((run timeout l es).to_game ≡ l.to_game ++ datagrams_of es)
  unfolding run packets_of datagrams_of
  run_all l [] told h = (sym (append-nil l.to_peer), sym (append-nil l.to_game))
  run_all l (x ∷ es) told h =
      let l' = step timeout l x in
      let told' = step_told timeout l x told in
      let up = first_stays l' es h in
      let (sent, written) = run_all l' es told' h in
      let running : (l'.udp_done || l'.datagrams_done) ≡ false = not_done l' told' up in
      let udp : l'.udp_done ≡ false = ground arith in
      let datagrams : l'.datagrams_done ≡ false = ground arith in
      (
        sent
            ∙ ap (λ xs. xs ++ packets_of es) (step_to_peer timeout l x ∙ rw udp refl)
            ∙ append_assoc l.to_peer (packets_of (x ∷ [])) (packets_of es)
            ∙ ap (λ xs. l.to_peer ++ xs) (sym (packets_of-cons x es)),
        written
            ∙ ap (λ xs. xs ++ datagrams_of es) (step_to_game timeout l x ∙ rw datagrams refl)
            ∙ append_assoc l.to_game (datagrams_of (x ∷ [])) (datagrams_of es)
            ∙ ap (λ xs. l.to_game ++ xs) (sym (datagrams_of-cons x es)),
      )

  -- A link without an error has written all that it has read.
  pub run-start_all :
      (now : ℕ) (es : List Event)
      → (run timeout (start now) es).first ≡ none
      → ((run timeout (start now) es).to_peer ≡ packets_of es)
        × ((run timeout (start now) es).to_game ≡ datagrams_of es)
  unfolding start
  run-start_all now es h = run_all (start now) es (λ d. absurd (ground (arith, d))) h
