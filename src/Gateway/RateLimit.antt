-- ===== src/Gateway/RateLimit.antt =====
-- backend/gateway/src/rate_limiter.rs over Redis: INCR of an absent key starts at 1, EXPIRE sets
-- the seconds after which the key is gone, and `elapse` lets time pass. Either call may fail, which
-- every handler answers by TOO_MANY_REQUESTS.
pub mod Counting
pub mod Stuck
pub mod Release
use blindmarkets.Base.{
  ℕ, ◌+◌, ◌-◌, ◌^◌, ◌≡◌, ◌≤◌, arith, Bool, List, [], ◌∷◌, ◌++◌, Option, none, some, Text, codes,
  text_eq, ltb, leb, ◌==◌, if◌then◌else◌, update_where,
}
use blindmarkets.Gateway.Types.{Config, too_many_requests}
use blindmarkets.Gateway.Exec.{
  Failure, aborted, Counter, World, Exec, ok, pure, ◌>>=◌, ◌>>◌, checked, guard, round_trip,
}
use blindmarkets.Gateway.Exec.Rules.{Quiet}

abbrev pub limit_error : Failure
limit_error = aborted too_many_requests

unfoldable pub count_of : Text → List Counter → ℕ
count_of key [] = 0
count_of key (c ∷ cs) = if text_eq c.key key then c.count else count_of key cs

unfoldable pub incr : Text → List Counter → List Counter
incr key [] = record { key = key; count = 1; ttl = none } ∷ []
incr key (c ∷ cs) =
    if text_eq c.key key then record c { count = c.count + 1 } ∷ cs else c ∷ incr key cs

unfoldable pub expire : Text → ℕ → List Counter → List Counter
expire key seconds cs =
    update_where (λ c. text_eq c.key key) (λ c. record c { ttl = some seconds }) cs

-- What Redis does by itself: the counters whose time has come are dropped.
abbrev age : ℕ → Option ℕ → Option ℕ
age t none = none
age t (some s) = some (s - t)

abbrev is_due : ℕ → Option ℕ → Bool
is_due t none = Bool.false
is_due t (some s) = leb s t

unfoldable pub elapse : ℕ → List Counter → List Counter
elapse t [] = []
elapse t (c ∷ cs) =
    if is_due t c.ttl then elapse t cs else record c { ttl = age t c.ttl } ∷ elapse t cs

modify_redis : (List Counter → List Counter) → Exec (Unit {0})
modify_redis f w = (ok tt, record w { redis = f w.redis })

read_count : Text → Exec ℕ
read_count key w = (ok (count_of key w.redis), w)

-- `conn.expire`, after the first request of a window
set_expiry : Text → ℕ → ℕ → Exec (Unit {0})
unfolding modify_redis
set_expiry key window_seconds current =
    if current == 1
    then round_trip limit_error >> modify_redis (expire key window_seconds)
    else pure tt

unfoldable pub check_rate_limit : Text → ℕ → ℕ → Exec (Unit {0})
unfolding modify_redis read_count set_expiry
check_rate_limit key max_per_minute window_seconds = do
  round_trip limit_error
  modify_redis (incr key)
  current ← read_count key
  checked (guard (ltb current (2 ^ 32)) limit_error)
  set_expiry key window_seconds current
  checked (guard (leb current max_per_minute) limit_error)

-- The limits read and write nothing but Redis.
pub check_rate_limit-db :
    (key : Text) (max_per_minute window_seconds : ℕ) (w : World)
    → (check_rate_limit key max_per_minute window_seconds w).1.db ≡ w.db
unfolding check_rate_limit round_trip pure ◌>>=◌
check_rate_limit-db key max_per_minute window_seconds w = ground arith

pub check_rate_limit-trips :
    (key : Text) (max_per_minute window_seconds : ℕ) (w : World)
    → let w' = (check_rate_limit key max_per_minute window_seconds w).1 in
      (w'.faults ≡ w.faults) × (w.trips ≤ w'.trips)
unfolding check_rate_limit round_trip pure ◌>>=◌
check_rate_limit-trips key max_per_minute window_seconds w = (ground arith, ground arith)

unfoldable pub check_user_limit : Config → Text → Exec (Unit {0})
check_user_limit config user_address =
    check_rate_limit (codes "rate:user:" ++ user_address) config.max_intents_per_user_per_minute
      config.rate_limit_window_seconds

unfoldable pub check_ip_limit : Config → Text → Exec (Unit {0})
check_ip_limit config ip_address =
    check_rate_limit (codes "rate:ip:" ++ ip_address) config.max_requests_per_ip_per_minute
      config.rate_limit_window_seconds

pub check_user_limit-db :
    (config : Config) (user : Text) (w : World) → (check_user_limit config user w).1.db ≡ w.db
unfolding check_user_limit
check_user_limit-db config user w = check_rate_limit-db _ _ _ w

pub check_ip_limit-db :
    (config : Config) (ip : Text) (w : World) → (check_ip_limit config ip w).1.db ≡ w.db
unfolding check_ip_limit
check_ip_limit-db config ip w = check_rate_limit-db _ _ _ w

pub check_user_limit-trips :
    (config : Config) (user : Text) (w : World)
    → let w' = (check_user_limit config user w).1 in (w'.faults ≡ w.faults) × (w.trips ≤ w'.trips)
unfolding check_user_limit
check_user_limit-trips config user w = check_rate_limit-trips _ _ _ w

pub check_ip_limit-trips :
    (config : Config) (ip : Text) (w : World)
    → let w' = (check_ip_limit config ip w).1 in (w'.faults ≡ w.faults) × (w.trips ≤ w'.trips)
unfolding check_ip_limit
check_ip_limit-trips config ip w = check_rate_limit-trips _ _ _ w

pub Quiet-check_ip_limit : (config : Config) (ip : Text) → Quiet (check_ip_limit config ip)
Quiet-check_ip_limit config ip = record { at = check_ip_limit-db config ip }
