-- ===== src/Gateway/Table.antt =====
-- The SQL statements of backend/gateway/src/api.rs as functions on the tables, after the keys that
-- backend/gateway/migrations declares.
pub mod Laws
use blindmarkets.Base.{
  ℕ, ◌+◌, ◌-◌, Bool, true, false, not, ◌&&◌, List, [], ◌∷◌, ◌++◌, Option, none, some, Text, text_eq,
  if◌then◌else◌, any, retain, update_where, find_where, is_some,
}
use blindmarkets.Gateway.Types.{
  Intent, IntentStatus, Batch, BatchStatus, UserNonce, PendingBalance, Db, CloseBatchRequest,
  SettleBatchRequest, FailedBatchRequest, is_settled,
}

abbrev pub is_intent : Text → Intent → Bool
is_intent id row = text_eq row.intent_id id

-- SELECT .. FROM intents WHERE intent_id = $1
unfoldable pub find_intent : Text → Db → Option Intent
find_intent id d = find_where (is_intent id) d.intents

abbrev pub is_nonce : Text → Text → UserNonce → Bool
is_nonce user nonce row = text_eq row.user_address user && text_eq row.nonce nonce

unfoldable pub has_nonce : Text → Text → Db → Bool
has_nonce user nonce d = any (is_nonce user nonce) d.user_nonces

-- INSERT INTO user_nonces .. ON CONFLICT DO NOTHING, and whether a row was affected
unfoldable pub insert_nonce : Text → Text → Db → Bool × Db
insert_nonce user nonce d =
    if has_nonce user nonce d then (false, d) else (true, record d { user_nonces = added })
  where
    added : List UserNonce
    added = d.user_nonces ++ record { user_address = user; nonce = nonce } ∷ []

-- DELETE FROM user_nonces WHERE user_address = $1 AND nonce = $2
unfoldable pub delete_nonce : Text → Text → Db → Db
delete_nonce user nonce d = record d {
  user_nonces = retain (λ row. not (is_nonce user nonce row)) d.user_nonces;
}

abbrev pub is_balance : Text → Text → PendingBalance → Bool
is_balance user asset row = text_eq row.user_address user && text_eq row.asset_address asset

unfoldable pub upsert_balance : Text → Text → ℕ → List PendingBalance → List PendingBalance
upsert_balance user asset amount [] =
    record { user_address = user; asset_address = asset; pending_amount = amount } ∷ []
upsert_balance user asset amount (row ∷ rows) =
    if is_balance user asset row
    then record row { pending_amount = row.pending_amount + amount } ∷ rows
    else row ∷ upsert_balance user asset amount rows

-- INSERT INTO pending_balances .. ON CONFLICT .. DO UPDATE SET pending_amount = .. + EXCLUDED
unfoldable pub add_pending : Text → Text → ℕ → Db → Db
unfolding upsert_balance
add_pending user asset amount d = record d {
  pending_balances = upsert_balance user asset amount d.pending_balances;
}

-- UPDATE pending_balances SET pending_amount = GREATEST(pending_amount - $3, 0) WHERE ..
unfoldable pub release_pending : Text → Text → ℕ → Db → Db
release_pending user asset amount d = record d {
  pending_balances =
      update_where (is_balance user asset)
        (λ row. record row { pending_amount = row.pending_amount - amount }) d.pending_balances;
}

-- The same where the asset is a nullable column: `asset_address = NULL` matches no row.
unfoldable pub release_pending_of : Text → Option Text → ℕ → Db → Db
unfolding release_pending
release_pending_of user none amount d = d
release_pending_of user (some asset) amount d = release_pending user asset amount d

-- INSERT INTO intents .. ON CONFLICT (intent_id) DO NOTHING, and whether a row was affected
unfoldable pub insert_intent : Intent → Db → Bool × Db
insert_intent row d =
    if any (is_intent row.intent_id) d.intents
    then (false, d)
    else (true, record d { intents = d.intents ++ row ∷ [] })

-- UPDATE intents SET .. WHERE ..
unfoldable pub update_intents : (Intent → Bool) → (Intent → Intent) → Db → Db
update_intents where_ set d = record d { intents = update_where where_ set d.intents }

abbrev pub is_batch : Text → Batch → Bool
is_batch id row = text_eq row.batch_id id

upsert_batch : CloseBatchRequest → List Batch → List Batch
upsert_batch p [] =
    record {
      batch_id = p.batch_id;
      close_time = p.close_time;
      intent_count = p.intent_count;
      auction_deadline = p.auction_deadline;
      status = BatchStatus.auction;
      settled_at = none;
      failure_reason = none;
      failed_at = none;
    }
    ∷ []
upsert_batch p (row ∷ rows) =
    if is_batch p.batch_id row
    then record row {
      close_time = p.close_time;
      intent_count = p.intent_count;
      auction_deadline = p.auction_deadline;
      status = BatchStatus.auction;
    }
      ∷ rows
    else row ∷ upsert_batch p rows

-- INSERT INTO batches .. ON CONFLICT (batch_id) DO UPDATE SET .., status = 'AUCTION'
unfoldable pub open_auction : CloseBatchRequest → Db → Db
unfolding upsert_batch
open_auction p d = record d { batches = upsert_batch p d.batches }

-- UPDATE batches SET status = 'FAILED', failed_at = $2, failure_reason = $3 WHERE batch_id = $1
unfoldable pub mark_failed : FailedBatchRequest → Db → Db
mark_failed p d = record d {
  batches =
      update_where (is_batch p.batch_id)
        (λ row. record row {
          status = BatchStatus.failed;
          failed_at = some p.failed_at;
          failure_reason = some p.failure_reason;
        })
        d.batches;
}

-- UPDATE batches SET status = 'SETTLED', settled_at = $2 WHERE batch_id = $1
unfoldable pub mark_settled : SettleBatchRequest → Db → Db
mark_settled p d = record d {
  batches =
      update_where (is_batch p.batch_id)
        (λ row. record row { status = BatchStatus.settled; settled_at = some p.settled_at })
        d.batches;
}

abbrev pub asset_is : Option Text → Text → Bool
asset_is none asset = false
asset_is (some a) asset = text_eq a asset

-- The rows of one group of the subquery `sub` of `settle_batch`.
abbrev pub in_group : Text → Text → Text → Intent → Bool
in_group batch user asset row =
    text_eq row.batch_id batch
    && is_settled row.status
    && text_eq row.user_address user
    && asset_is row.asset_in asset

abbrev or_zero : Option ℕ → ℕ
or_zero none = 0
or_zero (some n) = n

-- SUM(amount), which skips the rows where the amount is NULL
unfoldable pub sum_amounts : (Intent → Bool) → List Intent → ℕ
sum_amounts p [] = 0
sum_amounts p (row ∷ rows) = (if p row then or_zero row.amount else 0) + sum_amounts p rows

-- One row of `UPDATE pending_balances .. FROM sub`. A group all of whose amounts are NULL has the
-- sum NULL, and GREATEST(NULL, 0) is 0.
unfoldable pub release_group : Text → List Intent → PendingBalance → PendingBalance
unfolding sum_amounts
release_group batch rows pb =
    let p = in_group batch pb.user_address pb.asset_address in
    if not (any p rows)
    then pb
    else if any (λ row. p row && is_some row.amount) rows
    then record pb { pending_amount = pb.pending_amount - sum_amounts p rows }
    else record pb { pending_amount = 0 }

unfoldable pub release_settled : Text → Db → Db
unfolding release_group
release_settled batch d = record d {
  pending_balances = update_where (λ _. true) (release_group batch d.intents) d.pending_balances;
}

-- What is pending of one asset of one user; without a row nothing is.
unfoldable pub balance : Text → Text → List PendingBalance → ℕ
balance user asset [] = 0
balance user asset (row ∷ rows) =
    if is_balance user asset row then row.pending_amount else balance user asset rows

unfoldable pub pending_of : Text → Text → Db → ℕ
unfolding balance
pending_of user asset d = balance user asset d.pending_balances
