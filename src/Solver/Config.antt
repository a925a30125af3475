-- ===== src/Solver/Config.antt =====
-- solver-reference/src/config.rs, and the matching engine that main.rs makes of the settings.
pub mod Startup
use blindmarkets.Base.{
  ℕ, ◌^◌, Bool, false, not, ◌&&◌, ◌||◌, List, [], ◌∷◌, Option, none, some, unwrap_or, Text, String,
  codes, len, ltb, ◌==◌, is_empty, retain, trim, split, entries, eq_ignore_ascii_case,
  parse_unsigned, if◌then◌else◌,
}
use blindmarkets.Settings.{
  ConfigResult, ok, err, ◌>>=◌, ◌>>◌, Vars, var, number_var, require, refuse_if, is_http, is_blank,
  has_hex_prefix, invalid, bad_url, bad_prefix, bad_length, empty, out_of_range, no_fill_source,
}
use blindmarkets.Solver.Matching.{MatchingEngine, new, with_accept_all, add_inventory}

pub record SolverConfig : Type 0 where
  pub solver_address : Text
  pub gateway_url : Text
  pub gateway_api_key_header : Text
  pub gateway_api_key : Text
  pub solver_private_key : Text
  pub solver_account_address : Text
  pub solver_account_private_key : Text
  pub chain_id : Text
  pub batch_auction_address : Text
  pub batch_settlement_address : Text
  pub solver_bond_address : Text
  pub rpc_url : Text
  pub solver_fee_bps : ℕ
  pub solver_bond_proof : Text
  pub dex_quote_endpoints : List Text
  pub initial_inventory : List (Text × ℕ)
  pub proof_service_url : Option Text
  pub proof_service_api_key : Option Text
  pub accept_all_intents : Bool

abbrev or_empty : Option Text → Text
or_empty value = unwrap_or value []

abbrev first_part : List Text → Text
first_part [] = []
first_part (part ∷ parts) = part

abbrev second_part : List Text → Text
second_part [] = codes "0"
second_part (part ∷ []) = codes "0"
second_part (part ∷ amount ∷ parts) = amount

-- An entry `asset:amount`; what follows a second colon is ignored.
unfoldable pub read_stock : Text → ConfigResult (Text × ℕ)
unfolding split
read_stock entry = do
  let asset = trim (first_part (split b':' entry))
  amount ←
      require (parse_unsigned (2 ^ 128) (trim (second_part (split b':' entry))))
        (invalid "SOLVER_INITIAL_INVENTORY")
  refuse_if (is_empty asset) (empty "SOLVER_INITIAL_INVENTORY")
  ok (asset, amount)

unfoldable pub read_stocks : List Text → ConfigResult (List (Text × ℕ))
unfolding read_stock
read_stocks [] = ok []
read_stocks (entry ∷ rest) = do
  stock ← read_stock entry
  stocks ← read_stocks rest
  ok (stock ∷ stocks)

unfoldable pub read_inventory : Vars → ConfigResult (List (Text × ℕ))
unfolding read_stocks split
read_inventory vars = read_stocks (
    retain (λ entry. not (is_blank entry))
      (split b',' (or_empty (vars "SOLVER_INITIAL_INVENTORY"))))

abbrev is_true : Option Text → Bool
is_true none = false
is_true (some value) = eq_ignore_ascii_case (trim value) (codes "true")

-- A variable that is blank counts as not set.
abbrev not_blank : Option Text → Option Text
not_blank none = none
not_blank (some value) = if is_blank value then none else some (trim value)

unfoldable pub from_env : Vars → ConfigResult SolverConfig
unfolding var number_var read_inventory
from_env vars = do
  solver_address ← var vars "SOLVER_ADDRESS"
  gateway_url ← var vars "GATEWAY_URL"
  gateway_api_key_header ← var vars "GATEWAY_API_KEY_HEADER"
  gateway_api_key ← var vars "GATEWAY_API_KEY"
  solver_private_key ← var vars "SOLVER_PRIVATE_KEY"
  solver_account_address ← var vars "SOLVER_ACCOUNT_ADDRESS"
  solver_account_private_key ← var vars "SOLVER_ACCOUNT_PRIVATE_KEY"
  chain_id ← var vars "STARKNET_CHAIN_ID"
  batch_auction_address ← var vars "BATCH_AUCTION_ADDRESS"
  batch_settlement_address ← var vars "BATCH_SETTLEMENT_ADDRESS"
  solver_bond_address ← var vars "SOLVER_BOND_ADDRESS"
  rpc_url ← var vars "STARKNET_RPC_URL"
  solver_fee_bps ← number_var (2 ^ 16) vars "SOLVER_FEE_BPS"
  solver_bond_proof ← var vars "SOLVER_BOND_PROOF"
  initial_inventory ← read_inventory vars
  ok (record {
    solver_address = solver_address;
    gateway_url = gateway_url;
    gateway_api_key_header = gateway_api_key_header;
    gateway_api_key = gateway_api_key;
    solver_private_key = solver_private_key;
    solver_account_address = solver_account_address;
    solver_account_private_key = solver_account_private_key;
    chain_id = chain_id;
    batch_auction_address = batch_auction_address;
    batch_settlement_address = batch_settlement_address;
    solver_bond_address = solver_bond_address;
    rpc_url = rpc_url;
    solver_fee_bps = solver_fee_bps;
    solver_bond_proof = solver_bond_proof;
    dex_quote_endpoints = entries (or_empty (vars "DEX_QUOTE_ENDPOINTS"));
    initial_inventory = initial_inventory;
    proof_service_url = not_blank (vars "PROOF_SERVICE_URL");
    proof_service_api_key = not_blank (vars "PROOF_SERVICE_API_KEY");
    accept_all_intents = is_true (vars "SOLVER_ACCEPT_ALL_INTENTS");
  })

abbrev is_bad_url : Option Text → Bool
is_bad_url none = false
is_bad_url (some url) = not (is_http url)

unfoldable pub validate : SolverConfig → ConfigResult (Unit {0})
validate c = do
  refuse_if (not (is_http c.gateway_url)) (bad_url "GATEWAY_URL")
  refuse_if (is_blank c.gateway_api_key_header) (empty "GATEWAY_API_KEY_HEADER")
  refuse_if (is_blank c.gateway_api_key) (empty "GATEWAY_API_KEY")
  refuse_if (not (has_hex_prefix c.solver_address)) (bad_prefix "SOLVER_ADDRESS")
  refuse_if (not (has_hex_prefix c.solver_account_address)) (bad_prefix "SOLVER_ACCOUNT_ADDRESS")
  refuse_if (not (has_hex_prefix c.solver_account_private_key))
      (bad_prefix "SOLVER_ACCOUNT_PRIVATE_KEY")
  refuse_if (not (len c.solver_account_private_key == 66)) (bad_length "SOLVER_ACCOUNT_PRIVATE_KEY")
  refuse_if (is_blank c.chain_id) (empty "STARKNET_CHAIN_ID")
  refuse_if (not (has_hex_prefix c.batch_auction_address)) (bad_prefix "BATCH_AUCTION_ADDRESS")
  refuse_if (not (has_hex_prefix c.batch_settlement_address))
      (bad_prefix "BATCH_SETTLEMENT_ADDRESS")
  refuse_if (not (has_hex_prefix c.solver_bond_address)) (bad_prefix "SOLVER_BOND_ADDRESS")
  refuse_if (not (is_http c.rpc_url)) (bad_url "STARKNET_RPC_URL")
  refuse_if (c.solver_fee_bps == 0 || ltb 10000 c.solver_fee_bps) (out_of_range "SOLVER_FEE_BPS")
  refuse_if (is_blank c.solver_bond_proof) (empty "SOLVER_BOND_PROOF")
  refuse_if (is_blank c.solver_private_key) (empty "SOLVER_PRIVATE_KEY")
  refuse_if (not (has_hex_prefix c.solver_private_key) || not (len c.solver_private_key == 66))
      (bad_length "SOLVER_PRIVATE_KEY")
  refuse_if
      (is_empty c.dex_quote_endpoints && is_empty c.initial_inventory && not c.accept_all_intents)
      no_fill_source
  refuse_if (is_bad_url c.proof_service_url) (bad_url "PROOF_SERVICE_URL")

unfoldable pub stock_all : List (Text × ℕ) → MatchingEngine → MatchingEngine
unfolding add_inventory
stock_all [] e = e
stock_all ((asset, amount) ∷ stocks) e = stock_all stocks (add_inventory asset amount e)

-- The engine with which the solver starts.
unfoldable pub engine_of : SolverConfig → MatchingEngine
unfolding stock_all new with_accept_all
engine_of c =
    stock_all c.initial_inventory (if c.accept_all_intents then with_accept_all new else new)
