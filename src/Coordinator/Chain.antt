-- ===== src/Coordinator/Chain.antt =====
-- backend/coordinator/src/starknet_client.rs: the calls of the auction, whose signing and sending are
-- those of the crate starknet, and the settings that they need.
use blindmarkets.Base.{ℕ, List, [], ◌∷◌, Option, some, none, Text, to_hex}
use blindmarkets.Settings.{ConfigResult, ok, ◌>>=◌, Vars, var}
use blindmarkets.Chain.{ContractCall}

pub record StarknetConfig : Type 0 where
  pub rpc_url : Text
  pub chain_id : Text
  pub account_address : Text
  pub private_key : Text
  pub intent_registry_address : Text
  pub batch_auction_address : Text
  pub batch_settlement_address : Text

unfoldable pub from_env : Vars → ConfigResult StarknetConfig
unfolding var
from_env vars = do
  rpc_url ← var vars "STARKNET_RPC_URL"
  chain_id ← var vars "STARKNET_CHAIN_ID"
  account_address ← var vars "COORDINATOR_ACCOUNT_ADDRESS"
  private_key ← var vars "COORDINATOR_PRIVATE_KEY"
  intent_registry_address ← var vars "INTENT_REGISTRY_ADDRESS"
  batch_auction_address ← var vars "BATCH_AUCTION_ADDRESS"
  batch_settlement_address ← var vars "BATCH_SETTLEMENT_ADDRESS"
  ok (record {
    rpc_url = rpc_url;
    chain_id = chain_id;
    account_address = account_address;
    private_key = private_key;
    intent_registry_address = intent_registry_address;
    batch_auction_address = batch_auction_address;
    batch_settlement_address = batch_settlement_address;
  })

module _ (batch_auction_address : ℕ) where
  unfoldable create_batch : ℕ → ℕ → ℕ → ContractCall
  create_batch batch_id close_time intent_count = record {
    to = batch_auction_address;
    selector = "create_batch";
    calldata = batch_id ∷ close_time ∷ intent_count ∷ [];
  }

  unfoldable finalize_auction : ℕ → ContractCall
  finalize_auction batch_id = record {
    to = batch_auction_address;
    selector = "finalize_auction";
    calldata = batch_id ∷ [];
  }

  abbrev winner : Option (List ℕ) → Option Text
  winner none = none
  winner (some []) = some (to_hex 0)
  winner (some (solver ∷ felts)) = some (to_hex solver)

  -- `provider` is what the call of the contract gives.
  unfoldable get_winning_solver : (ContractCall → Option (List ℕ)) → ℕ → Option Text
  get_winning_solver provider batch_id = winner (
      provider (record {
        to = batch_auction_address;
        selector = "get_winning_solver";
        calldata = batch_id ∷ [];
      }))
