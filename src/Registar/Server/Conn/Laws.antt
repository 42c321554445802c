-- ===== src/Registar/Server/Conn/Laws.antt =====
-- With which code `ServeQUICConn` of internal/registar/server.go closes a connection.
use star.Prelude.{
  ◌≡◌, inl, inr, ap, ◌∙◌, Bool, true, false, ◌&&◌, Bool-cases, Option, Option-cases, none, some,
  List, [], ◌∷◌, arith, if◌then◌else◌,
}
use star.Registar.P2p.Errors.{Error}
use star.Registar.Server.Conn.{
  is_remote_client_closed, loop_error, Conn, new_conn, Event, stream, uni_stream, handled,
  accept_fails, accept_uni_fails, step, run, served, err_code_accept_stream,
}

-- The first failure of each loop, which ends it.
abbrev pub bidi_failure : List Event → Option Error
bidi_failure [] = none
bidi_failure (stream ∷ es) = bidi_failure es
bidi_failure (uni_stream ∷ es) = bidi_failure es
bidi_failure (handled ∷ es) = bidi_failure es
bidi_failure (accept_fails e ∷ es) = some e
bidi_failure (accept_uni_fails e ∷ es) = bidi_failure es

abbrev pub uni_failure : List Event → Option Error
uni_failure [] = none
uni_failure (stream ∷ es) = uni_failure es
uni_failure (uni_stream ∷ es) = uni_failure es
uni_failure (handled ∷ es) = uni_failure es
uni_failure (accept_fails e ∷ es) = uni_failure es
uni_failure (accept_uni_fails e ∷ es) = some e

abbrev pub is_clean : Bool → Option Error → Bool
is_clean false e = true
is_clean true none = true
is_clean true (some e) = is_remote_client_closed e

abbrev pub has_none : Option Error → Bool
has_none none = true
has_none (some e) = false

-- No error is kept exactly if none was before and each loop that ends was closed by the client.
run_first :
    (c : Conn) (es : List Event)
    → has_none (run c es).first
      ≡ (has_none c.first && is_clean c.bidi (bidi_failure es) && is_clean c.uni (uni_failure es))
unfolding run step loop_error
run_first c [] = elim (Bool-cases c.bidi) [
  | inl p ↦ elim (Bool-cases c.uni) [ inl q ↦ ground (arith, p, q) | inr q ↦ ground (arith, p, q) ]
  | inr p ↦ elim (Bool-cases c.uni) [ inl q ↦ ground (arith, p, q) | inr q ↦ ground (arith, p, q) ]
]
run_first c (stream ∷ es) = elim (Bool-cases c.bidi) [
  | inl p ↦ ground (arith, p, run_first (step c stream) es)
  | inr p ↦ ground (arith, p, run_first (step c stream) es)
]
run_first c (uni_stream ∷ es) = elim (Bool-cases c.uni) [
  | inl p ↦ ground (arith, p, run_first (step c uni_stream) es)
  | inr p ↦ ground (arith, p, run_first (step c uni_stream) es)
]
run_first c (handled ∷ es) = ground (arith, run_first (step c handled) es)
run_first c (accept_fails e ∷ es) = elim (Bool-cases c.bidi) [
  | inr p ↦ ground (arith, p, run_first (step c (accept_fails e)) es)
  | inl p ↦ elim (Option-cases c.first) [
    | inr (y, q) ↦ ground (arith, p, q, run_first (step c (accept_fails e)) es)
    | inl q ↦ elim (Bool-cases (is_remote_client_closed e)) [
      | inl z ↦ ground (arith, p, q, z, run_first (step c (accept_fails e)) es)
      | inr z ↦ ground (arith, p, q, z, run_first (step c (accept_fails e)) es)
    ]
  ]
]
run_first c (accept_uni_fails e ∷ es) = elim (Bool-cases c.uni) [
  | inr p ↦ ground (arith, p, run_first (step c (accept_uni_fails e)) es)
  | inl p ↦ elim (Option-cases c.first) [
    | inr (y, q) ↦ ground (arith, p, q, run_first (step c (accept_uni_fails e)) es)
    | inl q ↦ elim (Bool-cases (is_remote_client_closed e)) [
      | inl z ↦ ground (arith, p, q, z, run_first (step c (accept_uni_fails e)) es)
      | inr z ↦ ground (arith, p, q, z, run_first (step c (accept_uni_fails e)) es)
    ]
  ]
]

run_bidi : (c : Conn) (es : List Event) → (run c es).bidi ≡ (c.bidi && has_none (bidi_failure es))
unfolding run step
run_bidi c [] = elim (Bool-cases c.bidi) [ inl p ↦ ground (arith, p) | inr p ↦ ground (arith, p) ]
run_bidi c (stream ∷ es) = elim (Bool-cases c.bidi) [
  | inl p ↦ ground (arith, p, run_bidi (step c stream) es)
  | inr p ↦ ground (arith, p, run_bidi (step c stream) es)
]
run_bidi c (uni_stream ∷ es) = ground (arith, run_bidi (step c uni_stream) es)
run_bidi c (handled ∷ es) = ground (arith, run_bidi (step c handled) es)
run_bidi c (accept_fails e ∷ es) = elim (Bool-cases c.bidi) [
  | inl p ↦ ground (arith, p, run_bidi (step c (accept_fails e)) es)
  | inr p ↦ ground (arith, p, run_bidi (step c (accept_fails e)) es)
]
run_bidi c (accept_uni_fails e ∷ es) = ground (arith, run_bidi (step c (accept_uni_fails e)) es)

run_uni : (c : Conn) (es : List Event) → (run c es).uni ≡ (c.uni && has_none (uni_failure es))
unfolding run step
run_uni c [] = elim (Bool-cases c.uni) [ inl p ↦ ground (arith, p) | inr p ↦ ground (arith, p) ]
run_uni c (stream ∷ es) = ground (arith, run_uni (step c stream) es)
run_uni c (uni_stream ∷ es) = ground (arith, run_uni (step c uni_stream) es)
run_uni c (handled ∷ es) = ground (arith, run_uni (step c handled) es)
run_uni c (accept_fails e ∷ es) = ground (arith, run_uni (step c (accept_fails e)) es)
run_uni c (accept_uni_fails e ∷ es) = elim (Bool-cases c.uni) [
  | inl p ↦ ground (arith, p, run_uni (step c (accept_uni_fails e)) es)
  | inr p ↦ ground (arith, p, run_uni (step c (accept_uni_fails e)) es)
]

served_lem :
    (c : Conn)
    → c.bidi ≡ false
    → c.uni ≡ false
    → c.handlers ≡ 0
    → served c ≡ some (if has_none c.first then 0 else err_code_accept_stream, c.first)
unfolding served
served_lem c b u h = elim (Option-cases c.first) [
  | inl q ↦ ground (arith, b, u, h, q)
  | inr (e, q) ↦ ground (arith, b, u, h, q)
]

-- Once both loops have failed and every handler has returned, `ServeQUICConn` returns. It closes the
-- connection with 0 and returns no error if both failures say that the client has closed the
-- connection. Otherwise it closes it with `errCodeAcceptStream` and returns an error.
pub served-run :
    (es : List Event) (e u : Error)
    → bidi_failure es ≡ some e
    → uni_failure es ≡ some u
    → (run new_conn es).handlers ≡ 0
    → (served (run new_conn es)
        ≡ some (
          if is_remote_client_closed e && is_remote_client_closed u
              then 0
              else err_code_accept_stream,
          (run new_conn es).first,
        ))
      × (has_none (run new_conn es).first
          ≡ (is_remote_client_closed e && is_remote_client_closed u))
unfolding new_conn
served-run es e u he hu h =
    let c = run new_conn es in
    let kept : has_none c.first ≡ (is_remote_client_closed e && is_remote_client_closed u) =
      ground (arith, he, hu, run_first new_conn es) in
    let b : c.bidi ≡ false = ground (arith, he, run_bidi new_conn es) in
    let v : c.uni ≡ false = ground (arith, hu, run_uni new_conn es) in
    (
      served_lem c b v h ∙ ap (λ z. some (if z then 0 else err_code_accept_stream, c.first)) kept,
      kept,
    )
