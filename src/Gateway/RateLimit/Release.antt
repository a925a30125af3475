-- ===== src/Gateway/RateLimit/Release.antt =====
-- Keys that have waited out their window.
use blindmarkets.Base.{
  ℕ, suc, ◌≤◌, ◌≡◌, refl, ap, ◌∙◌, Bool, true, false, List, [], ◌∷◌, Option, none, some, Text,
  text_eq, text_eq_refl, all, leb, ◌==◌, update_where, Bool-cases, inl, inr, arith,
}
use blindmarkets.Gateway.Exec.{ok, Counter, World, round_trip, ◌>>=◌, pure}
use blindmarkets.Gateway.RateLimit.{count_of, incr, expire, elapse, check_rate_limit}
use blindmarkets.Gateway.RateLimit.Counting.{check_counts}
use blindmarkets.Gateway.RateLimit.Stuck.{Later, now, request, wait}

abbrev is_within : ℕ → Option ℕ → Bool
is_within window none = false
is_within window (some s) = leb s window

-- Every counter expires within the window.
unfoldable pub is_timed : ℕ → List Counter → Bool
is_timed window cs = all (λ c. is_within window c.ttl) cs

timed-elapse :
    (window t : ℕ) (cs : List Counter)
    → is_timed window cs ≡ true
    → is_timed window (elapse t cs) ≡ true
unfolding is_timed all elapse
timed-elapse window t [] h = refl
timed-elapse window t (c ∷ cs) h = ground (arith, timed-elapse window t cs)

elapse-all :
    (window t : ℕ) (cs : List Counter) → window ≤ t → is_timed window cs ≡ true → elapse t cs ≡ []
unfolding is_timed all elapse
elapse-all window t [] l h = refl
elapse-all window t (c ∷ cs) l h = ground (arith, elapse-all window t cs)

timed-expire :
    (key : Text) (window : ℕ) (cs : List Counter)
    → is_timed window cs ≡ true
    → is_timed window (expire key window cs) ≡ true
unfolding is_timed all expire update_where
timed-expire key window [] h = refl
timed-expire key window (c ∷ cs) h = ground (arith, timed-expire key window cs)

timed-expire-incr :
    (key : Text) (window : ℕ) (cs : List Counter)
    → is_timed window cs ≡ true
    → is_timed window (expire key window (incr key cs)) ≡ true
unfolding is_timed all incr expire update_where
timed-expire-incr key window [] h = ground (arith, text_eq_refl key)
timed-expire-incr key window (c ∷ cs) h = elim (Bool-cases (text_eq c.key key)) [
  | inl t ↦ ground (arith, t, timed-expire key window cs)
  | inr f ↦ rw f (ground (arith, f, timed-expire-incr key window cs))
]

timed-incr :
    (key : Text) (window : ℕ) (cs : List Counter)
    → (count_of key (incr key cs) == 1) ≡ false
    → is_timed window cs ≡ true
    → is_timed window (incr key cs) ≡ true
unfolding is_timed all incr count_of
timed-incr key window [] n h = ground (arith, text_eq_refl key)
timed-incr key window (c ∷ cs) n h = elim (Bool-cases (text_eq c.key key)) [
  | inl t ↦ rw t (ground (arith, t))
  | inr f ↦ rw f (ground (arith, f, timed-incr key window cs))
]

timed-request :
    (key : Text) (max window : ℕ) (w : World)
    → ((n : ℕ) → w.faults n ≡ false)
    → is_timed window w.redis ≡ true
    → is_timed window (check_rate_limit key max window w).1.redis ≡ true
unfolding check_rate_limit round_trip pure ◌>>=◌
timed-request key max window w up h = ground (
  arith,
  up w.trips,
  up (suc w.trips),
  timed-incr key window w.redis,
  timed-expire-incr key window w.redis,
)

timed-Later :
    (max window : ℕ) (w w' : World)
    → ((n : ℕ) → w.faults n ≡ false)
    → is_timed window w.redis ≡ true
    → Later max window w w'
    → (is_timed window w'.redis ≡ true) × ((n : ℕ) → w'.faults n ≡ false)
timed-Later max window w _ up h now = (h, up)
timed-Later max window w w' up h (request key rest) =
    let same = (check_counts key key max window w up).1 in
    timed-Later max window _ w' (λ n. ap (λ (f : ℕ → Bool). f n) same ∙ up n)
      (timed-request key max window w up h) rest
timed-Later max window w w' up h (wait t rest) =
    timed-Later max window _ w' up (timed-elapse window t w.redis h) rest

passes-new :
    (key : Text) (max window : ℕ) (w : World)
    → ((n : ℕ) → w.faults n ≡ false)
    → 1 ≤ max
    → w.redis ≡ []
    → (check_rate_limit key max window w).0 ≡ ok tt
unfolding check_rate_limit round_trip pure ◌>>=◌ incr count_of
passes-new key max window w up pos absent =
    ground (arith, absent, up w.trips, up (suc w.trips), text_eq_refl key)

-- Where Redis answers every call, every counter has a time to live of at most the window, and the
-- limit is at least one: whatever requests for whatever keys come and however much time passes
-- between them, once no request has come for a whole window the next request of any key passes.
pub check_rate_limit-released :
    (key : Text) (max window t : ℕ) (w w' : World)
    → 1 ≤ max
    → window ≤ t
    → ((n : ℕ) → w.faults n ≡ false)
    → is_timed window w.redis ≡ true
    → Later max window w w'
    → (check_rate_limit key max window (record w' { redis = elapse t w'.redis })).0 ≡ ok tt
check_rate_limit-released key max window t w w' pos passed up h later =
    let (timed, answers) = timed-Later max window w w' up h later in
    passes-new key max window _ answers pos (elapse-all window t w'.redis passed timed)
