-- ===== src/Forwarder/Host.antt =====
-- internal/forwarder/host.go: `AcceptAndLink` and the goroutines that it starts. A connection is a
-- number, its identity.
pub mod Laws
use star.Prelude.{
  ℕ, Bool, true, false, Option, none, some, List, [], ◌∷◌, ◌++◌, ◌==◌, if◌then◌else◌,
}

-- What `linkWithHost` returns.
pub data LinkResult : Type 0 where
  linked_nil dial_failed transport_closed context_canceled link_failed : LinkResult

pub data Returned : Type 0 where
  accepting returned_nil accept_error : Returned

-- `linking` are the connections that the wait group counts; `closed` those whose goroutine has
-- closed them; `reported` what the error handlers got.
pub record Host : Type 0 where
  pub linking : List ℕ
  pub closed : List ℕ
  pub reported : List LinkResult
  pub loop : Returned

unfoldable pub new_host : Host
new_host = record { linking = []; closed = []; reported = []; loop = accepting }

-- What `Accept` returns, and the end of the link of a connection.
pub data Event : Type 0 where
  accepts : ℕ → Event
  hoster_closed accept_fails : Event
  returns : ℕ → LinkResult → Event

-- Whether `handleError` is called.
unfoldable pub is_reported : LinkResult → Bool
is_reported linked_nil = false
is_reported dial_failed = true
is_reported transport_closed = false
is_reported context_canceled = false
is_reported link_failed = true

unfoldable pub remove : ℕ → List ℕ → List ℕ
remove c [] = []
remove c (x ∷ xs) = if x == c then xs else x ∷ remove c xs

unfoldable pub has : ℕ → List ℕ → Bool
has c [] = false
has c (x ∷ xs) = if x == c then true else has c xs

-- The loop accepts until `Accept` fails; a goroutine ends at any time.
unfoldable pub on_accept : Host → Event → Host
on_accept h (accepts c) = record h { linking = h.linking ++ c ∷ [] }
on_accept h hoster_closed = record h { loop = returned_nil }
on_accept h accept_fails = record h { loop = accept_error }
on_accept h (returns c result) = h

unfoldable pub on_return : Host → ℕ → LinkResult → Host
unfolding is_reported remove
on_return h c result = record h {
  linking = remove c h.linking;
  closed = h.closed ++ c ∷ [];
  reported = if is_reported result then h.reported ++ result ∷ [] else h.reported;
}

unfoldable pub on_loop : Returned → Host → Event → Host
unfolding on_accept
on_loop accepting h e = on_accept h e
on_loop returned_nil h e = h
on_loop accept_error h e = h

unfoldable pub step : Host → Event → Host
unfolding on_loop on_return has
step h (returns c result) = if has c h.linking then on_return h c result else h
step h (accepts c) = on_loop h.loop h (accepts c)
step h hoster_closed = on_loop h.loop h hoster_closed
step h accept_fails = on_loop h.loop h accept_fails

unfoldable pub run : Host → List Event → Host
unfolding step
run h [] = h
run h (e ∷ es) = run (step h e) es

-- `Close` returns when the wait group is empty.
unfoldable pub close_returns : Host → Bool
close_returns h = elim h.linking [ [] ↦ true | x ∷ xs ↦ false ]
