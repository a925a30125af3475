-- ===== src/Gateway/Pool.antt =====
-- backend/gateway/src/ciphertext_pool.rs. The map is an association list with one entry for each
-- batch; a u64 difference wraps. A poisoned lock makes every operation an error, none here.
pub mod Pruning
use blindmarkets.Base.{
  ℕ, ◌+◌, ◌-◌, ◌%◌, ◌^◌, Bool, not, List, [], ◌∷◌, ◌++◌, Option, none, some, Text, text_eq, ltb,
  length, is_empty, retain, if◌then◌else◌,
}

pub record EncryptedIntent : Type 0 where
  pub intent_id : Text
  pub ciphertext : List ℕ
  pub commitment : Text
  pub user_address : Text
  pub timestamp : ℕ

pub record BatchEntry : Type 0 where
  pub batch_id : Text
  pub intents : List EncryptedIntent

pub record CiphertextPool : Type 0 where
  pub pool : List BatchEntry
  pub poisoned : Bool

abbrev with_lock : {A : Type 0} → CiphertextPool → A → Option A
with_lock p a = if p.poisoned then none else some a

unfoldable pub push_intent : Text → EncryptedIntent → List BatchEntry → List BatchEntry
push_intent batch_id intent [] = record { batch_id = batch_id; intents = intent ∷ [] } ∷ []
push_intent batch_id intent (e ∷ es) =
    if text_eq e.batch_id batch_id
    then record e { intents = e.intents ++ intent ∷ [] } ∷ es
    else e ∷ push_intent batch_id intent es

unfoldable pub add_intent : CiphertextPool → Text → EncryptedIntent → Option CiphertextPool
unfolding push_intent
add_intent p batch_id intent = with_lock p (record p { pool = push_intent batch_id intent p.pool })

unfoldable pub intents_of : Text → List BatchEntry → List EncryptedIntent
intents_of batch_id [] = []
intents_of batch_id (e ∷ es) =
    if text_eq e.batch_id batch_id then e.intents else intents_of batch_id es

unfoldable pub get_batch_intents : CiphertextPool → Text → Option (List EncryptedIntent)
unfolding intents_of
get_batch_intents p batch_id = with_lock p (intents_of batch_id p.pool)

unfoldable pub remove_batch : CiphertextPool → Text → Option CiphertextPool
remove_batch p batch_id =
    with_lock p (record p { pool = retain (λ e. not (text_eq e.batch_id batch_id)) p.pool })

-- `current_time - intent.timestamp < max_age`
abbrev pub is_fresh : ℕ → ℕ → EncryptedIntent → Bool
is_fresh current_time max_age intent =
    ltb ((current_time + 2 ^ 64 - intent.timestamp) % 2 ^ 64) max_age

-- The pass of `retain` over the map: what stays, and `removed_count`.
unfoldable pub prune : ℕ → ℕ → List BatchEntry → List BatchEntry × ℕ
prune current_time max_age [] = ([], 0)
prune current_time max_age (e ∷ es) =
    let kept = retain (is_fresh current_time max_age) e.intents in
    let (rest, count) = prune current_time max_age es in
    let total = count + (length e.intents - length kept) in
    if not (is_empty kept) then (record e { intents = kept } ∷ rest, total) else (rest, total)

unfoldable pub prune_expired : CiphertextPool → ℕ → ℕ → Option (CiphertextPool × ℕ)
unfolding prune
prune_expired p current_time max_age =
    with_lock p
      (let (pool, count) = prune current_time max_age p.pool in (record p { pool = pool }, count))
