-- ===== src/Discovery/Bind.antt =====
-- `Bind` of internal/discovery/discovery.go. What the socket and the context do is a list of
-- events, the fuel of both loops; at its end the client still waits.
pub mod Laws
use mathlib.Core.Logic.{ite}
use native.Mathlib.Decide.{ℕ_discrete}
use star.Prelude.{ℕ, Bool, true, false, Option, none, some, List, [], ◌∷◌, if◌then◌else◌}
use star.Discovery.Wire.{Addr, AddrPort, Request, Response, marshal_request, unmarshal_response}

-- A read ends by its deadline, when the context may be cancelled and the next write may fail; by
-- another error; or with a packet and its sender, `none` if that is no UDP address.
pub data Event : Type 0 where
  timeout : Bool → Bool → Event
  failed : Event
  packet : List ℕ → Option AddrPort → Event

pub data Outcome : Type 0 where
  bound : AddrPort → Outcome
  cancelled write_failed read_failed waiting : Outcome

pub AddrPort-discrete : Discrete AddrPort
AddrPort-discrete = hlevel ℕ_discrete

pub bytes_discrete : Discrete (List ℕ)
bytes_discrete = hlevel ℕ_discrete

module _ (server : AddrPort) (tx_id : List ℕ) where
  -- The address in a packet, if it is the answer that is waited for.
  unfoldable pub accept : List ℕ → Option AddrPort → Option AddrPort
  accept buf none = none
  accept buf (some raddr) =
      ite (AddrPort-discrete server raddr)
        (elim (unmarshal_response buf) [
          | none ↦ none
          | some resp ↦ ite (bytes_discrete resp.tx_id tx_id) (some resp.addr) none
        ])
        none

  -- The turn of the outer loop: the context's error, then the write.
  resend : Bool → Bool → Outcome → Outcome
  resend ctx_done write_ok rest =
      if ctx_done then cancelled else if write_ok then rest else write_failed

  -- The inner loop.
  pub receive : List Event → Outcome
  unfolding resend
  receive [] = waiting
  receive (timeout ctx_done write_ok ∷ es) = resend ctx_done write_ok (receive es)
  receive (failed ∷ es) = read_failed
  receive (packet buf raddr ∷ es) =
      let rest = receive es in elim (accept buf raddr) [ none ↦ rest | some a ↦ bound a ]

  pub bind : Bool → Bool → List Event → Outcome
  unfolding resend
  bind ctx_done write_ok es = resend ctx_done write_ok (receive es)
