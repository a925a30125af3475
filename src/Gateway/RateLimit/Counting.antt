-- ===== src/Gateway/RateLimit/Counting.antt =====
-- How many requests of one key the rate limiter lets through.
use mathlib.Core.Path.{subst}
use blindmarkets.Base.{
  sym, ℕ, suc, ◌+◌, ◌-◌, ◌^◌, ◌<◌, ◌≡◌, refl, ap, ◌∙◌, Bool, false, List, [], ◌∷◌, Text, text_eq,
  text_eq_iff, text_eq_refl, text_eq→eq, Bool-cases, inl, inr, count_where, leb, if◌then◌else◌,
  update_where, arith,
}
use blindmarkets.Gateway.Exec.{Result, ok, err, Counter, World, round_trip, ◌>>=◌, pure}
use blindmarkets.Gateway.RateLimit.{limit_error, count_of, incr, expire, check_rate_limit}

count_of-incr :
    (key key' : Text) (cs : List Counter)
    → count_of key' (incr key cs)
      ≡ (if text_eq key key' then count_of key' cs + 1 else count_of key' cs)
unfolding count_of incr
count_of-incr key key' [] = ground arith
count_of-incr key key' (c ∷ cs) = ground (
  arith,
  text_eq_iff c.key key,
  text_eq_iff c.key key',
  text_eq_iff key key',
  count_of-incr key key' cs,
)

count_of-expire :
    (key key' : Text) (seconds : ℕ) (cs : List Counter)
    → count_of key' (expire key seconds cs) ≡ count_of key' cs
unfolding count_of expire update_where
count_of-expire key key' seconds [] = refl
count_of-expire key key' seconds (c ∷ cs) = ground (arith, count_of-expire key key' seconds cs)

-- One request, where Redis answers.
check_rate_limit_lem :
    (key key' : Text) (max window : ℕ) (w : World)
    → ((n : ℕ) → w.faults n ≡ false)
    → count_of key w.redis + 1 < 2 ^ 32
    → let (r, w') = check_rate_limit key max window w in
      (r ≡ (if leb (count_of key w.redis + 1) max then ok tt else err limit_error))
      × (count_of key' w'.redis
          ≡ (if text_eq key key' then count_of key' w.redis + 1 else count_of key' w.redis))
      × (w'.faults ≡ w.faults)
unfolding check_rate_limit round_trip pure ◌>>=◌
check_rate_limit_lem key key' max window w up small = ground (
  arith,
  up w.trips,
  up (suc w.trips),
  count_of-incr key key' w.redis,
  count_of-incr key key w.redis,
  text_eq_refl key,
  count_of-expire key key' window (incr key w.redis),
)

pub check_counts :
    (key key' : Text) (max window : ℕ) (w : World)
    → ((n : ℕ) → w.faults n ≡ false)
    → let w' = (check_rate_limit key max window w).1 in
      (count_of key' w'.redis
        ≡ (if text_eq key key' then count_of key' w.redis + 1 else count_of key' w.redis))
      × (w'.faults ≡ w.faults)
unfolding check_rate_limit round_trip pure ◌>>=◌
check_counts key key' max window w up = ground (
  arith,
  up w.trips,
  up (suc w.trips),
  count_of-incr key key' w.redis,
  count_of-expire key key' window (incr key w.redis),
)

-- How many of the requests for `key` pass, where those for all `keys` come in a row, in one window.
abbrev passes : Result (Unit {0}) → ℕ
passes (ok _) = 1
passes (err _) = 0

unfoldable pub admitted : Text → ℕ → ℕ → List Text → World → ℕ
admitted key max window [] w = 0
admitted key max window (k ∷ keys) w =
    let (answer, w') = check_rate_limit k max window w in
    let rest = admitted key max window keys w' in
    (if text_eq k key then passes answer else 0) + rest

unfoldable pub requests_of : Text → List Text → ℕ
requests_of key keys = count_where (λ k. text_eq k key) keys

abbrev pub min : ℕ → ℕ → ℕ
min a b = if leb a b then a else b

one_passes :
    (max n c c' a : ℕ) (r : Result (Unit {0}))
    → r ≡ (if leb (c + 1) max then ok tt else err limit_error)
    → c' ≡ c + 1
    → a ≡ min n (max - c')
    → passes r + a ≡ min (suc n) (max - c)
one_passes max n c c' a r h e k = ground arith

none_passes : (max n c c' a : ℕ) → c' ≡ c → a ≡ min n (max - c') → 0 + a ≡ min n (max - c)
none_passes max n c c' a e k = ground arith

-- Where Redis answers and no counter expires: of the requests for a key, whatever other requests
-- come between them, as many pass as are still allowed, and no more.
pub admitted-min :
    (key : Text) (max window : ℕ) (keys : List Text) (w : World)
    → ((n : ℕ) → w.faults n ≡ false)
    → count_of key w.redis + requests_of key keys < 2 ^ 32
    → admitted key max window keys w ≡ min (requests_of key keys) (max - count_of key w.redis)
unfolding admitted requests_of count_where
admitted-min key max window [] w up small = ground arith
admitted-min key max window (k ∷ keys) w up small =
    let w' = (check_rate_limit k max window w).1 in
    let (counted, same) = check_counts k key max window w up in
    let rest = admitted-min key max window keys w' (λ n. ap (λ (f : ℕ → Bool). f n) same ∙ up n) in
    elim (Bool-cases (text_eq k key)) [
      | inl t ↦
          let counted' : count_of key w'.redis ≡ count_of key w.redis + 1 =
            ground (arith, counted, t) in
          let answered =
            (check_rate_limit_lem key key max window w up (ground (arith, small, t))).0 in
          let rest' = rest (ground (arith, small, t, counted')) in
          rw t (
            one_passes max (requests_of key keys) (count_of key w.redis) (count_of key w'.redis) _ _
              (subst
                (λ x.
                  (check_rate_limit x max window w).0
                  ≡ (if leb (count_of key w.redis + 1) max then ok tt else err limit_error))
                (sym (text_eq→eq k key t)) answered)
              counted' rest')
      | inr f ↦
          let counted' : count_of key w'.redis ≡ count_of key w.redis =
            ground (arith, counted, f) in
          let rest' = rest (ground (arith, small, f, counted')) in
          rw f (
            none_passes max (requests_of key keys) (count_of key w.redis) (count_of key w'.redis) _
              counted' rest')
    ]
