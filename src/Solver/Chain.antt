-- ===== src/Solver/Chain.antt =====
-- solver-reference/src/starknet_client.rs: the calls that the solver makes and what it reads of the
-- bond contract. Signing and sending are calls of the crate starknet.
pub mod Settlement
use blindmarkets.Base.{
  ℕ, ◌+◌, ◌%◌, ◌^◌, Bool, not, List, [], ◌∷◌, ◌++◌, Option, none, some, Text, length, ltb, ◌==◌,
  ◌-◌, drop, to_hex, repeat, codes, if◌then◌else◌,
}
use blindmarkets.Gateway.Crypto.{◌>>=◌}
use blindmarkets.Chain.{FeltReader, ContractCall, parse_felt, parse_felts}
use blindmarkets.Solver.Plan.{TransferPlan}

pub record Contracts : Type 0 where
  pub batch_auction_address : ℕ
  pub batch_settlement_address : ℕ
  pub solver_bond_address : ℕ

pub record ContractTexts : Type 0 where
  pub batch_auction_address : Text
  pub batch_settlement_address : Text
  pub solver_bond_address : Text

pub record SolverInfo : Type 0 where
  pub solver : Text
  pub bond_amount : Text
  pub locked : Bool
  pub successful_settlements : ℕ  -- u32
  pub failed_settlements : ℕ  -- u32
  pub slash_count_30d : ℕ  -- u8
  pub last_slash_timestamp : ℕ  -- u64
  pub withdrawal_request_time : ℕ  -- u64
  pub withdrawal_request_amount : Text
  pub blacklisted : Bool

module _ (r : FeltReader) where
  -- The addresses of `StarknetClient::new`.
  unfoldable pub contracts_of : ContractTexts → Option Contracts
  contracts_of texts = do
    auction ← parse_felt r texts.batch_auction_address
    settlement ← parse_felt r texts.batch_settlement_address
    bond ← parse_felt r texts.solver_bond_address
    some (record {
      batch_auction_address = auction;
      batch_settlement_address = settlement;
      solver_bond_address = bond;
    })

  unfoldable pub submit_solution : Contracts → Text → Text → ℕ → ℕ → Text → Option ContractCall
  submit_solution c batch_id solution_commitment estimated_surplus solver_fee_bps bond_proof = do
    batch ← parse_felt r batch_id
    commitment ← parse_felt r solution_commitment
    proof ← parse_felt r bond_proof
    some (record {
      to = c.batch_auction_address;
      selector = "submit_solution";
      calldata = batch ∷ commitment ∷ estimated_surplus ∷ 0 ∷ solver_fee_bps ∷ proof ∷ [];
    })

  unfoldable pub transfer_felts : List TransferPlan → Option (List ℕ)
  transfer_felts [] = some []
  transfer_felts (transfer ∷ plan) = do
    from ← parse_felt r transfer.from
    to ← parse_felt r transfer.to
    asset ← parse_felt r transfer.asset
    rest ← transfer_felts plan
    some (from ∷ to ∷ asset ∷ transfer.amount ∷ 0 ∷ rest)

  unfoldable pub settle_calldata : Text → Text → List TransferPlan → List Text → Option (List ℕ)
  unfolding transfer_felts
  settle_calldata batch_id solver_address execution_plan proofs = do
    batch ← parse_felt r batch_id
    solver ← parse_felt r solver_address
    transfers ← transfer_felts execution_plan
    proof_felts ← parse_felts r proofs
    some (batch ∷ solver ∷ length execution_plan ∷ (transfers ++ length proofs ∷ proof_felts))

  unfoldable pub settle_batch :
      Contracts → Text → Text → List TransferPlan → List Text → Option ContractCall
  unfolding settle_calldata
  settle_batch c batch_id solver_address execution_plan proofs = do
    calldata ← settle_calldata batch_id solver_address execution_plan proofs
    some
        (record { to = c.batch_settlement_address; selector = "settle_batch"; calldata = calldata })

-- The calls of the bond contract take a u256.
unfoldable pub deposit_bond : Contracts → ℕ → ContractCall
deposit_bond c amount = record {
  to = c.solver_bond_address;
  selector = "deposit_bond";
  calldata = amount ∷ 0 ∷ [];
}

unfoldable pub request_withdrawal : Contracts → ℕ → ContractCall
request_withdrawal c amount = record {
  to = c.solver_bond_address;
  selector = "request_withdrawal";
  calldata = amount ∷ 0 ∷ [];
}

unfoldable pub withdraw : Contracts → ℕ → ContractCall
withdraw c amount = record {
  to = c.solver_bond_address;
  selector = "withdraw";
  calldata = amount ∷ 0 ∷ [];
}

-- A felt that is no u128 counts as 0.
unfoldable pub felt_to_u128 : ℕ → ℕ
felt_to_u128 felt = if ltb felt (2 ^ 128) then felt else 0

-- `{:x}` and `{:032x}`
abbrev hex_digits : ℕ → Text
hex_digits n = drop 2 (to_hex n)

abbrev padded : ℕ → Text
padded n = repeat (32 - length (hex_digits n)) b'0' (hex_digits n)

unfoldable pub format_u256 : ℕ → ℕ → Text
unfolding felt_to_u128
format_u256 low high =
    if felt_to_u128 high == 0
    then to_hex (felt_to_u128 low)
    else codes "0x" ++ hex_digits (felt_to_u128 high) ++ padded (felt_to_u128 low)

unfoldable pub read_solver_info : List ℕ → Option SolverInfo
unfolding format_u256
read_solver_info
      (solver ∷ low ∷ high ∷ locked ∷ good ∷ bad ∷ slashes ∷ slashed ∷ asked ∷ asked_low
        ∷ asked_high ∷ blacklisted ∷ felts) =
    some (record {
      solver = to_hex solver;
      bond_amount = format_u256 low high;
      locked = not (locked == 0);
      successful_settlements = felt_to_u128 good % 2 ^ 32;
      failed_settlements = felt_to_u128 bad % 2 ^ 32;
      slash_count_30d = felt_to_u128 slashes % 2 ^ 8;
      last_slash_timestamp = felt_to_u128 slashed % 2 ^ 64;
      withdrawal_request_time = felt_to_u128 asked % 2 ^ 64;
      withdrawal_request_amount = format_u256 asked_low asked_high;
      blacklisted = not (blacklisted == 0);
    })
read_solver_info _ = none

-- `provider` is what the call of the contract gives.
unfoldable get_solver_info :
    FeltReader → Contracts → (ContractCall → Option (List ℕ)) → Text → Option SolverInfo
unfolding read_solver_info
get_solver_info r c provider solver_address = do
  address ← parse_felt r solver_address
  response ←
      provider (record {
        to = c.solver_bond_address;
        selector = "get_solver_info";
        calldata = address ∷ [];
      })
  read_solver_info response
