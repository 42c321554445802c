-- ===== src/Discovery/Bind/Laws.antt =====
-- What the client of internal/discovery/discovery.go learns, and from whom.
use mathlib.Core.List.{Memᴰ, append-nil}
use star.Prelude.{
  ℕ, ◌≡◌, refl, ◌∙◌, inl, inr, Bool, true, false, Option, none, some, List, [], ◌∷◌, ◌++◌, length,
  arith, Option-cases, subst,
}
use star.Discovery.Wire.{
  AddrPort, Request, Response, marshal_request, marshal_response, unmarshal_response,
}
use star.Discovery.Wire.Laws.{IsAddrPort, unmarshal-marshal_response}
use star.Discovery.Serve.{answer}
use star.Discovery.Serve.Laws.{answer-marshal_request}
use star.Discovery.Bind.{Event, timeout, failed, packet, bound, accept, receive, bind}

module _ (server : AddrPort) (tx_id : List ℕ) where
  -- A response of the server to this very request, with the address `a`.
  pub record IsAnswer (buf : List ℕ) (a : AddrPort) : Type 0 where
    pub response : Response
    pub parsed : unmarshal_response buf ≡ some response
    pub id : response.tx_id ≡ tx_id
    pub address : response.addr ≡ a

  accept_sound :
      (buf : List ℕ) (raddr : Option AddrPort) (a : AddrPort)
      → accept server tx_id buf raddr ≡ some a
      → (raddr ≡ some server) × IsAnswer buf a
  unfolding accept
  accept_sound buf none a h = absurd (cc)
  accept_sound buf (some raddr) a h = elim (Option-cases (unmarshal_response buf)) [
    | inl bad ↦ absurd (ground arith)
    | inr (resp, good) ↦ (
      ground arith,
      record { response = resp; parsed = good; id = ground arith; address = ground arith },
    )
  ]

  receive_sound :
      (es : List Event) (a : AddrPort)
      → receive server tx_id es ≡ bound a
      → (buf : List ℕ) × Memᴰ (packet buf (some server)) es × IsAnswer buf a
  unfolding receive
  receive_sound [] a h = absurd (cc)
  receive_sound (timeout c w ∷ es) a h =
      let (buf, m, ans) = receive_sound es a (ground arith) in (buf, Memᴰ.tail m, ans)
  receive_sound (failed ∷ es) a h = absurd (cc)
  receive_sound (packet buf raddr ∷ es) a h = elim (Option-cases (accept server tx_id buf raddr)) [
    | inl other ↦ let (buf', m, ans) = receive_sound es a (ground arith) in (buf', Memᴰ.tail m, ans)
    | inr (b, hit) ↦
        let (sender, ans) = accept_sound buf raddr b hit in
        let same : b ≡ a = ground arith in (buf, Memᴰ.head (cc), subst (IsAnswer buf) same ans)
  ]

  -- The client returns an address only if it received a packet from the server that it asked,
  -- with the id of its own request and this address.
  pub bind_sound :
      (ctx_done write_ok : Bool) (es : List Event) (a : AddrPort)
      → bind server tx_id ctx_done write_ok es ≡ bound a
      → (buf : List ℕ) × Memᴰ (packet buf (some server)) es × IsAnswer buf a
  unfolding bind
  bind_sound ctx_done write_ok es a h = receive_sound es a (ground arith)

  -- What the client waits past: a deadline with the context alive and the next write sent, and
  -- any packet that is no answer to it.
  abbrev pub IsIgnored : Event → Type 0
  IsIgnored (timeout ctx_done write_ok) = (ctx_done ≡ false) × (write_ok ≡ true)
  IsIgnored failed = ⊥
  IsIgnored (packet buf raddr) = accept server tx_id buf raddr ≡ none

  abbrev pub AllIgnored : List Event → Type 0
  AllIgnored [] = Unit {0}
  AllIgnored (e ∷ es) = IsIgnored e × AllIgnored es

  receive_ignored :
      (noise es : List Event)
      → AllIgnored noise
      → receive server tx_id (noise ++ es) ≡ receive server tx_id es
  unfolding receive
  receive_ignored [] es h = refl
  receive_ignored (timeout c w ∷ noise) es h = ground (arith, receive_ignored noise es h.1)
  receive_ignored (failed ∷ noise) es h = absurd h.0
  receive_ignored (packet buf raddr ∷ noise) es h = ground (arith, receive_ignored noise es h.1)

bound_by :
    (server : AddrPort) (tx_id buf : List ℕ) (response : Response) (rest : List Event)
    → unmarshal_response buf ≡ some response
    → response.tx_id ≡ tx_id
    → receive server tx_id (packet buf (some server) ∷ rest) ≡ bound response.addr
unfolding receive accept
bound_by server tx_id buf response rest parsed same = ground arith

-- A client that asks an open server learns the address that the server sees, whatever else it
-- ignores arrives before the answer.
pub bind-answer :
    (server a : AddrPort) (q : Request) (noise rest : List Event)
    → length q.tx_id ≡ 16
    → IsAddrPort a
    → AllIgnored server q.tx_id noise
    → (data' : List ℕ) × (answer (marshal_request q) (some a) ≡ some (a, data'))
      × (bind server q.tx_id false true (noise ++ packet data' (some server) ∷ rest) ≡ bound a)
unfolding bind
bind-answer server a q noise rest size valid ignored =
    let response : Response = record { tx_id = q.tx_id; addr = a } in
    let parsed = unmarshal-marshal_response response size valid in
    (
      marshal_response response,
      rw (append-nil (marshal_request q)) at (answer-marshal_request q [] a size),
      receive_ignored server q.tx_id noise _ ignored
          ∙ bound_by server q.tx_id (marshal_response response) response rest parsed refl,
    )
