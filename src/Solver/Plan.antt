-- ===== src/Solver/Plan.antt =====
-- The plan and its hash in solver-reference/src/solution_builder.rs. Of two fills for one intent the
-- last one counts, as in the map that the code collects. Every error is none.
pub mod Payment
use blindmarkets.Base.{
  ℕ, ◌+◌, ◌*◌, ◌/◌, ◌^◌, Bool, List, [], ◌∷◌, Option, none, some, Text, text_eq, codes, starts_with,
  ◌||◌, ltb, leb, if◌then◌else◌,
}
use blindmarkets.Gateway.Crypto.{◌>>=◌}
use blindmarkets.Solver.Matching.{SolverIntent, Fill}

pub record TransferPlan : Type 0 where
  pub from : Text
  pub to : Text
  pub asset : Text
  pub amount : ℕ  -- u128

abbrev pub max : ℕ → ℕ → ℕ
max a b = if leb a b then b else a

-- `checked_mul` is none where the product does not fit.
unfoldable pub compute_output_amount : Fill → ℕ → Option ℕ
compute_output_amount fill min_output =
    let numerator = fill.fill_amount * fill.execution_price in
    if ltb numerator (2 ^ 128) then some (max (numerator / 1000000) min_output) else none

abbrev or_this : Fill → Option Fill → Option Fill
or_this fill none = some fill
or_this fill (some later) = some later

unfoldable pub fill_for : Text → List Fill → Option Fill
fill_for id [] = none
fill_for id (fill ∷ fills) =
    let later = fill_for id fills in if text_eq fill.intent_id id then or_this fill later else later

unfoldable pub build_execution_plan :
    Text → List SolverIntent → List Fill → Option (List TransferPlan)
unfolding fill_for compute_output_amount
build_execution_plan solver [] fills = some []
build_execution_plan solver (intent ∷ intents) fills = do
  fill ← fill_for intent.intent_id fills
  output_amount ← compute_output_amount fill intent.min_output
  rest ← build_execution_plan solver intents fills
  some (
      record {
        from = intent.user_address;
        to = solver;
        asset = intent.asset_in;
        amount = intent.amount;
      }
      ∷ record {
        from = solver;
        to = intent.user_address;
        asset = intent.asset_out;
        amount = output_amount;
      }
      ∷ rest)

-- `Felt::from_hex` and `Felt::from_dec_str` are of the crate starknet.
unfoldable pub field_from_hex : (Text → Option ℕ) → (Text → Option ℕ) → Text → Option ℕ
field_from_hex felt_from_hex felt_from_dec_str value =
    if starts_with value (codes "0x") || starts_with value (codes "0X")
    then felt_from_hex value
    else felt_from_dec_str value

module _ (felt_from_hex felt_from_dec_str : Text → Option ℕ) (pedersen_hash : ℕ → ℕ → ℕ) where
  unfoldable pub hash_transfers : ℕ → List TransferPlan → Option ℕ
  unfolding field_from_hex
  hash_transfers hash [] = some hash
  hash_transfers hash (transfer ∷ plan) = do
    from ← field_from_hex felt_from_hex felt_from_dec_str transfer.from
    to ← field_from_hex felt_from_hex felt_from_dec_str transfer.to
    asset ← field_from_hex felt_from_hex felt_from_dec_str transfer.asset
    let amount_hash = pedersen_hash transfer.amount 0
    let transfer_hash = pedersen_hash (pedersen_hash from to) (pedersen_hash asset amount_hash)
    hash_transfers (pedersen_hash hash transfer_hash) plan

  -- The field element that `compute_settlement_hash` prints.
  unfoldable pub compute_settlement_hash : Text → List TransferPlan → Option ℕ
  unfolding hash_transfers field_from_hex
  compute_settlement_hash batch_id plan = do
    hash ← field_from_hex felt_from_hex felt_from_dec_str batch_id
    hash_transfers hash plan
