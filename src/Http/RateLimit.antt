-- ===== src/Http/RateLimit.antt =====
-- `RateLimit` of internal/platform/httpplatform/middleware.go. The limiters of
-- golang.org/x/time/rate are a parameter. A pointer to one is a number; what it points to is in
-- `limiters`. The handler takes one reading of the clock, in nanoseconds.
pub mod Unbounded
use native.Mathlib.Decide.{ℕ_discrete}
use star.Prelude.{
  ℕ, ◌+◌, ◌-◌, ◌*◌, ◌/◌, ◌^◌, Bool, Option, none, some, List, [], ◌∷◌, ltb, if◌then◌else◌,
}
use star.Prelude.Dict.{get, put}
use star.Platform.Ttl.{TtlMap, new_ttl_map, get_or_set}

-- What the middleware uses of golang.org/x/time/rate: `NewLimiter` of a limit that is a time for
-- each token, and a burst; `Reserve`, `Delay` and `Cancel` at a time.
pub record Rate : Type 1 where
  pub Limiter : Type 0
  pub Reservation : Type 0
  pub new_limiter : ℕ → ℕ → Limiter
  pub reserve : Limiter → ℕ → Reservation × Limiter
  pub delay : Reservation → ℕ → ℕ
  pub cancel : Reservation → Limiter → ℕ → Limiter

-- `rate.InfDuration`, the largest int64.
abbrev pub inf_duration : ℕ
inf_duration = 2 ^ 63 - 1

-- `limited` is the answer 429, with the header `Retry-After` if it is set.
pub data Answer : Type 0 where
  passed : Answer
  limited : Option ℕ → Answer

-- `math.Ceil(delay.Seconds())`, which is exact for delays of less than 2^23 seconds.
unfoldable pub retry_after : ℕ → ℕ
retry_after delay = (delay + 999999999) / 1000000000

-- The time to live of a limiter, as long as it fits an int64.
unfoldable pub ttl_of : ℕ → ℕ → ℕ
ttl_of every burst = if ltb 1 burst then burst * every else every

module _ (r : Rate) where
  -- What the handler does with a limiter.
  unfoldable pub admit : r.Limiter → ℕ → Answer × r.Limiter
  unfolding retry_after
  admit limiter now =
      let (reservation, reserved) = r.reserve limiter now in
      let delay = r.delay reservation now in
      if ltb 0 delay
      then (
        limited (if ltb delay inf_duration then some (retry_after delay) else none),
        r.cancel reservation reserved now,
      )
      else (passed, reserved)

  pub record State (Ip : Type 0) : Type 0 where
    pub ip_limiter_map : TtlMap Ip ℕ
    pub limiters : List (ℕ × r.Limiter)
    pub next : ℕ

  unfoldable pub rate_limit : {Ip : Type 0} → ℕ → ℕ → State Ip
  rate_limit every burst = record {
    ip_limiter_map = new_ttl_map (ttl_of every burst);
    limiters = [];
    next = 0;
  }

  -- The handler: `none` is a nil pointer, which the map never has. The limiter that `GetOrSet` may
  -- make stands ready at the next address; nothing leads to it if it is not taken.
  unfoldable pub handle :
      {Ip : Type 0} → Discrete Ip → ℕ → ℕ → State Ip → Ip → ℕ → Option (Answer × State Ip)
  handle dec every burst s ip now =
      let (pointer, map) = get_or_set dec s.ip_limiter_map ip s.next now in
      let limiters = put ℕ_discrete s.next (r.new_limiter every burst) s.limiters in
      elim (get ℕ_discrete pointer limiters) [
        | none ↦ none
        | some limiter ↦
            let (answer, used) = admit limiter now in
            some (
              answer,
              record {
                ip_limiter_map = map;
                limiters = put ℕ_discrete pointer used limiters;
                next = s.next + 1;
              },
            )
      ]
