-- ===== src/Witnesses/Running.antt =====
-- The theorems on the rate limiter and the listings.
use blindmarkets.Base.{
  ◌≡◌, ◌+◌, ◌-◌, ◌^◌, ◌<◌, refl, true, not, Text, codes, [], ◌∷◌, text_eq, ◌==◌, all, update_where,
  count_where, arith,
}
use blindmarkets.Gateway.Exec.{ok, err, World, Counter, ◌>>=◌, pure, round_trip}
use blindmarkets.Gateway.RateLimit.{limit_error, count_of, incr, expire, elapse, check_rate_limit}
use blindmarkets.Gateway.RateLimit.Counting.{admitted, requests_of, min, admitted-min}
use blindmarkets.Gateway.RateLimit.Stuck.{is_stuck, now, request, wait, check_rate_limit_stuck}
use blindmarkets.Gateway.RateLimit.Release.{is_timed, check_rate_limit-released}
use blindmarkets.Witnesses.Data.{fresh_world}

abbrev key : Text
key = codes "rate:ip:10.0.0.1"

-- The second round trip of the first request, its EXPIRE, fails.
abbrev losing_expire : World
losing_expire = record fresh_world { faults = λ n. n == 1 }

few_requests :
    count_of key fresh_world.redis + requests_of key (key ∷ codes "rate:ip:2" ∷ key ∷ key ∷ [])
    < 2 ^ 32
unfolding count_of requests_of count_where text_eq
few_requests = omega arith

nothing_counted : all (λ (c : Counter). not (text_eq c.key key)) fresh_world.redis ≡ true
unfolding all
nothing_counted = refl

none_yet : is_timed 60 fresh_world.redis ≡ true
unfolding is_timed all
none_yet = refl

admitted-min_example :
    admitted key 2 60 (key ∷ codes "rate:ip:2" ∷ key ∷ key ∷ []) fresh_world
    ≡ min
        (requests_of key (key ∷ codes "rate:ip:2" ∷ key ∷ key ∷ []))
        (2 - count_of key fresh_world.redis)
admitted-min_example =
    admitted-min key 2 60 (key ∷ codes "rate:ip:2" ∷ key ∷ key ∷ []) fresh_world (λ n. refl)
      few_requests

check_rate_limit_stuck_example :
    is_stuck key 1
      (record (check_rate_limit key 5 60 losing_expire).1 {
        redis = elapse 1000 (check_rate_limit key 5 60 losing_expire).1.redis;
      }).redis
    ≡ true
check_rate_limit_stuck_example =
    check_rate_limit_stuck key 5 60 losing_expire
      (record (check_rate_limit key 5 60 losing_expire).1 {
        redis = elapse 1000 (check_rate_limit key 5 60 losing_expire).1.redis;
      })
      refl refl nothing_counted (wait 1000 now)

-- A second request in the window of the first, both of one key whose limit is 1.
abbrev limited_world : World
limited_world = (check_rate_limit key 1 60 (check_rate_limit key 1 60 fresh_world).1).1

check_rate_limit-released_example :
    (check_rate_limit key 1 60 (record limited_world { redis = elapse 60 limited_world.redis })).0
    ≡ ok tt
check_rate_limit-released_example =
    check_rate_limit-released key 1 60 60 fresh_world limited_world (omega arith) (omega arith)
      (λ n. refl) none_yet (request key (request key now))

limited_world_refuses : (check_rate_limit key 1 60 limited_world).0 ≡ err limit_error
unfolding check_rate_limit incr expire count_of update_where text_eq ◌>>=◌ pure round_trip
limited_world_refuses = refl
