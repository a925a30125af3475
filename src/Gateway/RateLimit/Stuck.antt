-- ===== src/Gateway/RateLimit/Stuck.antt =====
-- A counter that has lost its EXPIRE.
use blindmarkets.Base.{
  ℕ, suc, ◌+◌, ◌≤◌, ◌≡◌, Bool, true, false, List, [], ◌∷◌, Text, text_eq, text_eq_iff, text_eq_refl,
  text_eq→eq, all, not, ◌&&◌, is_some, update_where, leb, if◌then◌else◌, arith,
}
use blindmarkets.Gateway.Exec.{err, Counter, World, round_trip, ◌>>=◌, pure}
use blindmarkets.Gateway.RateLimit.{limit_error, count_of, incr, expire, elapse, check_rate_limit}

-- The first entry of the key never expires, and stands at `n` or above.
unfoldable pub is_stuck : Text → ℕ → List Counter → Bool
is_stuck key n [] = false
is_stuck key n (c ∷ cs) =
    if text_eq c.key key then not (is_some c.ttl) && leb n c.count else is_stuck key n cs

-- Requests for any keys, and time that passes, in any order and with any failures of Redis.
pub data Later (max window : ℕ) : World → World → Type 0 where
  now : {w : World} → Later max window w w
  request :
      {w w' : World} (key : Text)
      → Later max window (check_rate_limit key max window w).1 w'
      → Later max window w w'
  wait :
      {w w' : World} (t : ℕ)
      → Later max window (record w { redis = elapse t w.redis }) w'
      → Later max window w w'

stuck-incr :
    (key key' : Text) (n : ℕ) (cs : List Counter)
    → is_stuck key n cs ≡ true
    → (is_stuck key n (incr key' cs) ≡ true)
      × ((text_eq key' key ≡ true) → n + 1 ≤ count_of key (incr key' cs))
unfolding is_stuck incr count_of
stuck-incr key key' n [] h = absurd (ground arith)
stuck-incr key key' n (c ∷ cs) h = ground (
  arith,
  text_eq_iff c.key key,
  text_eq_iff c.key key',
  text_eq_iff key' key,
  text_eq_refl key,
  stuck-incr key key' n cs,
)

stuck-expire :
    (key key' : Text) (n s : ℕ) (cs : List Counter)
    → text_eq key' key ≡ false
    → is_stuck key n cs ≡ true
    → is_stuck key n (expire key' s cs) ≡ true
unfolding is_stuck expire update_where
stuck-expire key key' n s [] e h = absurd (ground arith)
stuck-expire key key' n s (c ∷ cs) e h = ground (
  arith,
  text_eq_iff c.key key,
  text_eq_iff c.key key',
  text_eq_iff key' key,
  text_eq_refl key,
  stuck-expire key key' n s cs,
)

stuck-elapse :
    (key : Text) (n t : ℕ) (cs : List Counter)
    → is_stuck key n cs ≡ true
    → is_stuck key n (elapse t cs) ≡ true
unfolding is_stuck elapse
stuck-elapse key n t [] h = absurd (ground arith)
stuck-elapse key n t (c ∷ cs) h = ground (arith, stuck-elapse key n t cs)

stuck-request :
    (key k : Text) (n max window : ℕ) (w : World)
    → 1 ≤ n
    → is_stuck key n w.redis ≡ true
    → is_stuck key n (check_rate_limit k max window w).1.redis ≡ true
unfolding check_rate_limit round_trip pure ◌>>=◌
stuck-request key k n max window w pos h =
    let counted = stuck-incr key k n w.redis h in
    ground (arith, counted, text_eq→eq k key, stuck-expire key k n window (incr k w.redis))

pub stuck-Later :
    (key : Text) (n max window : ℕ) (w w' : World)
    → 1 ≤ n
    → Later max window w w'
    → is_stuck key n w.redis ≡ true
    → is_stuck key n w'.redis ≡ true
stuck-Later key n max window w _ pos now h = h
stuck-Later key n max window w w' pos (request k rest) h =
    stuck-Later key n max window _ w' pos rest (stuck-request key k n max window w pos h)
stuck-Later key n max window w w' pos (wait t rest) h =
    stuck-Later key n max window _ w' pos rest (stuck-elapse key n t w.redis h)

refused-full :
    (key : Text) (n max window : ℕ) (w : World)
    → max ≤ n
    → is_stuck key n w.redis ≡ true
    → (check_rate_limit key max window w).0 ≡ err limit_error
unfolding check_rate_limit round_trip pure ◌>>=◌
refused-full key n max window w full h =
    ground (arith, stuck-incr key key n w.redis h, text_eq_refl key)

stuck-new :
    (key : Text) (cs : List Counter)
    → all (λ c. not (text_eq c.key key)) cs ≡ true
    → is_stuck key 1 (incr key cs) ≡ true
unfolding is_stuck incr all
stuck-new key [] h = ground (arith, text_eq_refl key)
stuck-new key (c ∷ cs) h = ground (arith, stuck-new key cs)

-- Where the EXPIRE of a window's first request fails, the counter of the key never expires: after any
-- further requests and any time it stands there at 1 or above, without a time to live.
pub check_rate_limit_stuck :
    (key : Text) (max window : ℕ) (w w' : World)
    → w.faults w.trips ≡ false
    → w.faults (suc w.trips) ≡ true
    → all (λ c. not (text_eq c.key key)) w.redis ≡ true
    → Later max window (check_rate_limit key max window w).1 w'
    → is_stuck key 1 w'.redis ≡ true
check_rate_limit_stuck key max window w w' answered lost new later =
    stuck-Later key 1 max window _ w' (omega arith) later first
  where
    first : is_stuck key 1 (check_rate_limit key max window w).1.redis ≡ true
    first =
        unfold check_rate_limit round_trip pure ◌>>=◌ in
        ground (arith, answered, lost, stuck-new key w.redis new)

-- Once such a counter has reached the limit, every request for its key is refused, however much
-- time has passed.
pub check_rate_limit_locked :
    (key : Text) (max window : ℕ) (w w' : World)
    → 1 ≤ max
    → is_stuck key max w.redis ≡ true
    → Later max window w w'
    → (check_rate_limit key max window w').0 ≡ err limit_error
check_rate_limit_locked key max window w w' pos h later =
    refused-full key max max window w' (omega arith)
      (stuck-Later key max max window w w' pos later h)
