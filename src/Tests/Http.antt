-- ===== src/Tests/Http.antt =====
-- Middleware, forms and the expiring map at concrete inputs.
use native.Mathlib.Decide.{ℕ_discrete}
use star.Prelude.{
  ℕ, ◌+◌, ◌*◌, ◌-◌, ◌≤◌, ◌≡◌, ◌≢◌, ◌↔◌, refl, Bool, true, false, Option, none, some, List, [], ◌∷◌,
  ◌++◌, arith, ltb, if◌then◌else◌, take, ◌&&◌,
}
use star.Platform.Ttl.{TtlMap, new_ttl_map, get_or_set}
use star.Platform.Ttl.Retention.{new_ttl_map-IsSound, run, get_or_set-run}
use star.Http.RateLimit.{Rate, admit, rate_limit, passed, limited}
use star.Http.RateLimit.Unbounded.{IsRefilled, handle_all, forever_all, handle_all-rate_limit}

abbrev small_map : TtlMap ℕ ℕ
small_map = new_ttl_map 10

-- A value made at 3 is returned at 12, with a time to live of 10.
get_or_set-run_example :
    (get_or_set ℕ_discrete
      (run ℕ_discrete (get_or_set ℕ_discrete small_map 7 70 3).1 ((8, 80, 5) ∷ []))
      7
      71
      12).0
    ≡ (get_or_set ℕ_discrete small_map 7 70 3).0
unfolding new_ttl_map
get_or_set-run_example =
    get_or_set-run ℕ_discrete small_map 0 3 12 7 70 71 ((8, 80, 5) ∷ [])
      (new_ttl_map-IsSound ℕ_discrete 10) (omega arith) (omega arith, omega arith) (omega arith)

-- A token bucket whose credit grows with time up to `full`, where a token costs `cost`.
record Bucket : Type 0 where
  cost : ℕ
  full : ℕ
  credit : ℕ
  last : ℕ

record Booking : Type 0 where
  wait : ℕ
  undone : Bucket

abbrev refilled : Bucket → ℕ → ℕ
refilled b now =
    if ltb b.full (b.credit + (now - b.last)) then b.full else b.credit + (now - b.last)

abbrev bucket_rate : Rate
bucket_rate = record {
  Limiter = Bucket;
  Reservation = Booking;
  new_limiter = λ every burst. record { cost = 5; full = 10; credit = 10; last = 0 };
  reserve = λ b now.
      let undone : Bucket = record b { credit = refilled b now; last = now } in
      if ltb (refilled b now) b.cost
      then (record { wait = b.cost - refilled b now; undone = undone }, undone)
      else (
        record { wait = 0; undone = undone },
        record undone { credit = refilled b now - b.cost },
      );
  delay = λ booking now. booking.wait;
  cancel = λ booking b now. booking.undone;
}

-- A bucket of tokens that cost 5, two at most, that was used last at a time.
abbrev UsedAt : Bucket → ℕ → Type 0
UsedAt b t = (b.cost ≡ 5) × (b.full ≡ 10) × (b.last ≡ t)

first_use : (now : ℕ) → UsedAt (admit bucket_rate (bucket_rate.new_limiter 5 2) now).1 now
unfolding admit
first_use now = ground arith

next_use : (b : Bucket) (t now : ℕ) → UsedAt b t → UsedAt (admit bucket_rate b now).1 now
unfolding admit
next_use b t now h = ground arith

rested_use :
    (b : Bucket) (t now : ℕ)
    → UsedAt b t
    → t + 5 ≤ now
    → t + 2 * 5 ≤ now
    → admit bucket_rate b now ≡ admit bucket_rate (bucket_rate.new_limiter 5 2) now
unfolding admit
rested_use b t now h one le = ground arith

bucket-IsRefilled : IsRefilled bucket_rate 5 2
bucket-IsRefilled = record { AsOf = UsedAt; first = first_use; again = next_use; full = rested_use }

-- Two requests at once pass, the third does not; after a rest the address passes again.
abbrev requests : List (ℕ × ℕ)
requests = (1, 3) ∷ (1, 3) ∷ (1, 3) ∷ (2, 4) ∷ (1, 20) ∷ []

handle_all-rate_limit_example :
    handle_all bucket_rate 5 2 ℕ_discrete (rate_limit bucket_rate 5 2) requests
    ≡ some (forever_all bucket_rate 5 2 ℕ_discrete [] requests)
handle_all-rate_limit_example =
    handle_all-rate_limit bucket_rate 5 2 bucket-IsRefilled ℕ_discrete requests (omega arith)

answers :
    forever_all bucket_rate 5 2 ℕ_discrete [] requests
    ≡ passed ∷ passed ∷ limited (some 1) ∷ passed ∷ passed ∷ []
unfolding forever_all star.Http.RateLimit.Unbounded.handle_forever admit star.Prelude.Dict.get
    star.Prelude.Dict.put star.Http.RateLimit.retry_after ℕ_discrete
answers = refl
