-- ===== src/Gateway/Pool/Pruning.antt =====
-- What `prune_expired` keeps, drops and counts.
use blindmarkets.Base.{
  ℕ, ◌+◌, ◌≡◌, refl, Bool, true, not, List, [], ◌∷◌, ◌++◌, ap, some, length, is_empty, all, retain,
  retain-append, length-append, length-retain-le, arith,
}
use blindmarkets.Gateway.Pool.{
  EncryptedIntent, BatchEntry, CiphertextPool, is_fresh, prune, prune_expired,
}

-- All the intents of a pool, batch after batch.
abbrev pub all_intents : List BatchEntry → List EncryptedIntent
all_intents [] = []
all_intents (e ∷ es) = e.intents ++ all_intents es

abbrev pub is_occupied : BatchEntry → Bool
is_occupied e = not (is_empty e.intents)

all_intents-prune :
    (now max_age : ℕ) (es : List BatchEntry)
    → all_intents (prune now max_age es).0 ≡ retain (is_fresh now max_age) (all_intents es)
unfolding prune
all_intents-prune now max_age [] = unfold retain in refl
all_intents-prune now max_age (e ∷ es) = ground (
  arith,
  all_intents-prune now max_age es,
  retain-append (is_fresh now max_age) e.intents (all_intents es),
)

prune-count :
    (now max_age : ℕ) (es : List BatchEntry)
    → length (retain (is_fresh now max_age) (all_intents es)) + (prune now max_age es).1
      ≡ length (all_intents es)
unfolding prune
prune-count now max_age [] = unfold retain in refl
prune-count now max_age (e ∷ es) = ground (
  arith,
  prune-count now max_age es,
  ap length (retain-append (is_fresh now max_age) e.intents (all_intents es)),
  length-append e.intents (all_intents es),
  length-append (retain (is_fresh now max_age) e.intents)
      (retain (is_fresh now max_age) (all_intents es)),
  length-retain-le (is_fresh now max_age) e.intents,
)

prune-is_occupied :
    (now max_age : ℕ) (es : List BatchEntry) → all is_occupied (prune now max_age es).0 ≡ true
unfolding prune all
prune-is_occupied now max_age [] = refl
prune-is_occupied now max_age (e ∷ es) = ground (arith, prune-is_occupied now max_age es)

-- Pruning keeps exactly the intents that are fresh, in their order, returns the number of those
-- that it dropped, and leaves no batch empty.
pub prune_expired_lem :
    (p q : CiphertextPool) (now max_age count : ℕ)
    → prune_expired p now max_age ≡ some (q, count)
    → (all_intents q.pool ≡ retain (is_fresh now max_age) (all_intents p.pool))
      × (length (all_intents q.pool) + count ≡ length (all_intents p.pool))
      × (all is_occupied q.pool ≡ true)
unfolding prune_expired
prune_expired_lem p q now max_age count h = ground (
  arith,
  all_intents-prune now max_age p.pool,
  prune-count now max_age p.pool,
  prune-is_occupied now max_age p.pool,
)
