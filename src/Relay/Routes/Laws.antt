-- ===== src/Relay/Routes/Laws.antt =====
-- What the calls on the route table of internal/relay/relay.go change, and when every route has its
-- way back.
use mathlib.Core.Logic.{ite, if_pos, if_neg}
use star.Prelude.{none, some, List, [], ◌∷◌, ◌≡◌, refl, ◌∙◌, ◌≢◌, ◌⊎◌, arith}
use star.Prelude.Dict.{get, put, delete, get-put, get-delete}
use star.Relay.Routes.{Routes, add_route, remove_route, remove_found, remove_all_routes, route}

module _ {Addr : Type 0} (dec : Discrete Addr) where
  pub route-add_route :
      (routes : Routes Addr) (a b x : Addr)
      → route dec (add_route dec routes a b) x
        ≡ ite (dec b x) (some a) (ite (dec a x) (some b) (route dec routes x))
  unfolding route add_route
  route-add_route routes a b x =
      rw (get-put dec b x a (put dec a b routes), get-put dec a x b routes)

  pub route-remove_route :
      (routes : Routes Addr) (a b x : Addr)
      → route dec (remove_route dec routes a b) x
        ≡ ite (dec b x) none (ite (dec a x) none (route dec routes x))
  unfolding route remove_route
  route-remove_route routes a b x =
      rw (get-delete dec b x (delete dec a routes), get-delete dec a x routes)

  -- Every route has its way back.
  abbrev pub IsSymmetric : Routes Addr → Type 0
  IsSymmetric routes = (x y : Addr) → route dec routes x ≡ some y → route dec routes y ≡ some x

  -- `a` is free for a route to `b`: it has none, or has that one.
  abbrev pub IsFree : Routes Addr → Addr → Addr → Type 0
  IsFree routes a b = (route dec routes a ≡ none) ⊎ (route dec routes a ≡ some b)

  -- Adding a route keeps all routes two-way, if neither end was routed elsewhere before.
  pub add_route-IsSymmetric :
      (routes : Routes Addr) (a b : Addr)
      → IsSymmetric routes
      → IsFree routes a b
      → IsFree routes b a
      → IsSymmetric (add_route dec routes a b)
  add_route-IsSymmetric routes a b h fa fb x y e =
      ground (arith, route-add_route routes a b x, route-add_route routes a b y, h x y, h y x)

  -- Removing a route keeps all others two-way, if its ends were routed to nowhere else.
  remove_route-IsSymmetric :
      (routes : Routes Addr) (a b : Addr)
      → IsSymmetric routes
      → IsFree routes a b
      → IsFree routes b a
      → IsSymmetric (remove_route dec routes a b)
  remove_route-IsSymmetric routes a b h fa fb x y e =
      ground (arith, route-remove_route routes a b x, route-remove_route routes a b y, h x y, h y x)

  get-delete_absent :
      (a x : Addr) (routes : Routes Addr)
      → get dec a routes ≡ none
      → get dec x (delete dec a routes) ≡ get dec x routes
  get-delete_absent a x routes g = ground (arith, get-delete dec a x routes)

  -- The loop deletes the key `a` alone, which the first `delete` has taken already.
  get-remove_found :
      (a x : Addr) (visited routes : List (Addr × Addr))
      → get dec a routes ≡ none
      → get dec x (remove_found dec a visited routes) ≡ get dec x routes
  unfolding remove_found
  get-remove_found a x [] routes g = refl
  get-remove_found a x ((src, dst) ∷ visited) routes g = elim (dec dst a) [
    | yes e ↦
        rw (if_pos _ e, e)
          (get-remove_found a x visited (delete dec a routes) (get-delete_absent a a routes g ∙ g)
            ∙ get-delete_absent a x routes g)
    | no e ↦ rw (if_neg _ e) (get-remove_found a x visited routes g)
  ]

  -- `RemoveAllRoutes` takes away the route from `a` and no other: a route from another address to
  -- `a` stays.
  route-remove_all_routes :
      (routes : Routes Addr) (a x : Addr)
      → route dec (remove_all_routes dec routes a) x ≡ ite (dec a x) none (route dec routes x)
  unfolding route remove_all_routes
  route-remove_all_routes routes a x =
      let rest = delete dec a routes in
      let gone : get dec a rest ≡ none = ground (arith, get-delete dec a a routes) in
      get-remove_found a x rest rest gone ∙ get-delete dec a x routes

  -- So wherever `b` was routed to `a`, it still is: packets from `b` keep going to `a`.
  pub remove_all_routes_keeps :
      (routes : Routes Addr) (a b : Addr)
      → a ≢ b
      → route dec routes b ≡ some a
      → route dec (remove_all_routes dec routes a) b ≡ some a
  remove_all_routes_keeps routes a b n e =
      route-remove_all_routes routes a b ∙ if_neg (dec a b) n none _ ∙ e
