-- ===== src/Relay/Routes.antt =====
-- The route table of internal/relay/relay.go.
pub mod Laws
use mathlib.Core.Logic.{ite}
use star.Prelude.{Option, none, some, List, [], ◌∷◌, ◌≡◌}
use star.Prelude.Dict.{get, put, delete}

-- `routes map[netip.AddrPort]netip.AddrPort`
abbrev pub Routes : Type 0 → Type 0
Routes Addr = List (Addr × Addr)

module _ {Addr : Type 0} (dec : Discrete Addr) where
  pub add_route : Routes Addr → Addr → Addr → Routes Addr
  add_route routes a b = put dec b a (put dec a b routes)

  pub remove_route : Routes Addr → Addr → Addr → Routes Addr
  remove_route routes a b = delete dec b (delete dec a routes)

  -- `for _, dst := range r.routes`, over the entries that the loop visits; a Go map may drop
  -- entries that the loop has deleted before it reaches them.
  remove_found : Addr → List (Addr × Addr) → Routes Addr → Routes Addr
  remove_found a [] routes = routes
  remove_found a ((src, dst) ∷ visited) routes =
      remove_found a visited (ite (dec dst a) (delete dec dst routes) routes)

  pub remove_all_routes : Routes Addr → Addr → Routes Addr
  unfolding remove_found
  remove_all_routes routes a = let rest = delete dec a routes in remove_found a rest rest

  -- Where a packet from `a` is sent.
  unfoldable pub route : Routes Addr → Addr → Option Addr
  route routes a = get dec a routes
