-- ===== src/Http/Wrap.antt =====
-- `Wrap` of internal/platform/httpplatform/middleware.go.
use mathlib.Core.List.{reverse, reverse-append}
use star.Prelude.{◌≡◌, refl, ap, ◌∙◌, Option, none, some, List, [], ◌∷◌, ◌++◌}

module _ {ℓ} {Handler : Type ℓ} where
  -- The loop of `Wrap` over the middlewares from the last one on; `none` is nil.
  pub wrap_backward : Handler → List (Option (Handler → Handler)) → Handler
  wrap_backward handler [] = handler
  wrap_backward handler (none ∷ mws) = wrap_backward handler mws
  wrap_backward handler (some mw ∷ mws) = wrap_backward (mw handler) mws

  pub wrap : Handler → List (Option (Handler → Handler)) → Handler
  unfolding wrap_backward
  wrap handler mws = wrap_backward handler (reverse mws)

  backward-append :
      (handler : Handler) (mws more : List (Option (Handler → Handler)))
      → wrap_backward handler (mws ++ more) ≡ wrap_backward (wrap_backward handler mws) more
  unfolding wrap_backward
  backward-append handler [] more = refl
  backward-append handler (none ∷ mws) more = backward-append handler mws more
  backward-append handler (some mw ∷ mws) more = backward-append (mw handler) mws more

  -- The handler inside the middlewares, the first of them outermost.
  abbrev pub nested : Handler → List (Option (Handler → Handler)) → Handler
  nested handler [] = handler
  nested handler (none ∷ mws) = nested handler mws
  nested handler (some mw ∷ mws) = mw (nested handler mws)

  outermost :
      (inner handler : Handler) (mws : List (Option (Handler → Handler)))
      → inner ≡ nested handler mws
      → (m : Option (Handler → Handler)) → wrap_backward inner (m ∷ []) ≡ nested handler (m ∷ mws)
  unfolding wrap_backward
  outermost inner handler mws e none = e
  outermost inner handler mws e (some mw) = ap mw e

  -- The first middleware sees a request first; nil middlewares are left out.
  pub wrap-nested :
      (handler : Handler) (mws : List (Option (Handler → Handler)))
      → wrap handler mws ≡ nested handler mws
  unfolding wrap
  wrap-nested handler [] = refl
  wrap-nested handler (m ∷ mws) =
      ap (wrap_backward handler) (reverse-append (m ∷ []) mws)
      ∙ backward-append handler (reverse mws) (m ∷ [])
      ∙ outermost (wrap_backward handler (reverse mws)) handler mws (wrap-nested handler mws) m
