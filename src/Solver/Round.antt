-- ===== src/Solver/Round.antt =====
-- What solver-reference/src/main.rs does when a batch is closed: the intents of the batch in the
-- gateway's order, their fills, plan and proofs, and `build_solution` of solution_builder.rs. The map
-- of pending intents is a list with one entry for an id.
pub mod Sources
pub mod Whole
use blindmarkets.Base.{
  ℕ, ◌+◌, ◌/◌, ◌%◌, ◌^◌, Bool, not, ◌&&◌, List, [], ◌∷◌, Option, none, some, is_some, Text, codes,
  text_eq, starts_with, length, is_empty, ℤ, pos, negsuc, false, retain, any, ◌==◌, if◌then◌else◌,
}
use blindmarkets.Gateway.Crypto.{Bytes, Primitives, ◌>>=◌}
use blindmarkets.Solver.Matching.{SolverIntent, Fill, MatchingEngine, create_internal_fill}
use blindmarkets.Solver.Plan.{
  TransferPlan, compute_output_amount, fill_for, build_execution_plan, compute_settlement_hash,
}
use blindmarkets.Solver.Ordering.{OrderResult, order}
use blindmarkets.Solver.Monitor.{IntentFields, parse_intent}
use blindmarkets.Solver.Inbox.{ItemsReply, fetch_solver_intents}
use blindmarkets.Solver.Liquidity.{QuoteRequest, QuoteReply, find_best_route}

pub record Solution : Type 0 where
  pub batch_id : Text
  pub solver_address : Text
  pub solution_commitment : Text
  pub estimated_surplus : ℕ  -- u128
  pub solver_fee_bps : ℕ  -- u16
  pub fills : List Fill
  pub execution_plan : List TransferPlan
  pub proofs : List Text

-- The solver's settings and what answers it: the gateway's items for the intents that are missing, the
-- exchanges, the proof service, and the crates for encryption, JSON and starknet-crypto.
pub record Setup : Type 0 where
  pub solver_address : Text
  pub solver_fee_bps : ℕ
  pub engine : MatchingEngine
  pub dex_endpoints : List Text
  pub primitives : Primitives
  pub solver_private_key : Text
  pub from_slice : Bytes → Option IntentFields
  pub get_solver_intents : Text → List Text → ItemsReply
  pub ask : Text → QuoteRequest → QuoteReply
  pub proof_service : Option (Text → ℕ → Option Text)
  pub felt_from_hex : Text → Option ℕ
  pub felt_from_dec_str : Text → Option ℕ
  pub pedersen_hash : ℕ → ℕ → ℕ
  pub to_hex : ℕ → Text

abbrev pub has_id : Text → SolverIntent → Bool
has_id id intent = text_eq intent.intent_id id

-- `HashMap::insert`, which replaces the entry of the id
unfoldable pub insert : SolverIntent → List SolverIntent → List SolverIntent
insert intent pending = intent ∷ retain (λ other. not (has_id intent.intent_id other)) pending

unfoldable pub insert_all : List SolverIntent → List SolverIntent → List SolverIntent
unfolding insert
insert_all [] pending = pending
insert_all (intent ∷ intents) pending = insert_all intents (insert intent pending)

unfoldable pub find_intent : Text → List SolverIntent → Option SolverIntent
find_intent id [] = none
find_intent id (intent ∷ pending) = if has_id id intent then some intent else find_intent id pending

unfoldable pub missing_of : List Text → List SolverIntent → List Text
missing_of ids pending = retain (λ id. not (any (has_id id) pending)) ids

abbrev add_fetched : Option (List SolverIntent) → List SolverIntent → List SolverIntent
add_fetched none pending = pending
add_fetched (some fetched) pending = insert_all fetched pending

abbrev fetch_missing : Setup → List Text → Option (List SolverIntent)
fetch_missing s =
    fetch_solver_intents s.primitives s.solver_private_key (parse_intent s.from_slice)
      s.get_solver_intents

-- The cache of the websocket, filled up from the gateway.
unfoldable pub complete : Setup → List Text → List SolverIntent → List SolverIntent
unfolding insert_all missing_of fetch_solver_intents
complete s ids pending =
    let missing = missing_of ids pending in
    if is_empty missing then pending else add_fetched (fetch_missing s missing) pending

abbrev pub push : Option SolverIntent → List SolverIntent → List SolverIntent
push none intents = intents
push (some intent) intents = intent ∷ intents

-- The loop that takes the ordered intents out of the map, and the map that it leaves.
unfoldable pub take_ordered : List Text → List SolverIntent → List SolverIntent × List SolverIntent
unfolding find_intent
take_ordered [] pending = ([], pending)
take_ordered (id ∷ ids) pending =
    let rest = take_ordered ids (retain (λ intent. not (has_id id intent)) pending) in
    (push (find_intent id pending) rest.0, rest.1)

abbrev or_else : Option Fill → Option Fill → Option Fill
or_else none other = other
or_else (some fill) other = some fill

unfoldable pub fill_intent : Setup → SolverIntent → Option Fill
fill_intent s intent =
    or_else (create_internal_fill s.engine intent) (find_best_route s.ask intent s.dex_endpoints)

abbrev pub push_fill : Option Fill → List Fill → List Fill
push_fill none fills = fills
push_fill (some fill) fills = fill ∷ fills

unfoldable pub fill_intents : Setup → List SolverIntent → List Fill
unfolding fill_intent
fill_intents s [] = []
fill_intents s (intent ∷ intents) = push_fill (fill_intent s intent) (fill_intents s intents)

-- `fetch_proof` refuses what has no prefix.
abbrev with_prefix : Text → Option Text
with_prefix proof = if starts_with proof (codes "0x") then some proof else none

abbrev private_proof :
    Option (Text → ℕ → Option Text) → Bool → SolverIntent → List Fill → Option Text
private_proof none accept_all intent fills = if accept_all then some (codes "0x0") else none
private_proof (some service) accept_all intent fills = do
  fill ← fill_for intent.intent_id fills
  output_amount ← compute_output_amount fill intent.min_output
  proof ← service intent.intent_id output_amount
  with_prefix proof

unfoldable pub proof_for : Setup → SolverIntent → List Fill → Option Text
unfolding fill_for compute_output_amount
proof_for s intent fills =
    if intent.privacy_mode == 0
    then some (codes "0x0")
    else private_proof s.proof_service s.engine.accept_all intent fills

unfoldable pub build_proofs : Setup → List SolverIntent → List Fill → Option (List Text)
unfolding proof_for
build_proofs s [] fills = some []
build_proofs s (intent ∷ intents) fills = do
  proof ← proof_for s intent fills
  rest ← build_proofs s intents fills
  some (proof ∷ rest)

-- The sum of u128 values wraps.
unfoldable pub calculate_total_surplus : List Fill → ℕ
calculate_total_surplus [] = 0
calculate_total_surplus (fill ∷ fills) =
    (fill.fill_amount / 100 + calculate_total_surplus fills) % 2 ^ 128

unfoldable pub build_solution :
    Setup → Text → List Fill → List TransferPlan → List Text → Option Solution
unfolding calculate_total_surplus
build_solution s batch_id fills execution_plan proofs = do
  hash ←
      compute_settlement_hash s.felt_from_hex s.felt_from_dec_str s.pedersen_hash batch_id
        execution_plan
  some (record {
    batch_id = batch_id;
    solver_address = s.solver_address;
    solution_commitment = s.to_hex hash;
    estimated_surplus = calculate_total_surplus fills;
    solver_fee_bps = s.solver_fee_bps;
    fills = fills;
    execution_plan = execution_plan;
    proofs = proofs;
  })

-- The solution to submit, where the batch is not skipped.
unfoldable pub solve : Setup → Text → List Text → List SolverIntent → Option Solution
unfolding fill_intents build_proofs build_solution
solve s batch_id ids intents =
    let fills = fill_intents s intents in
    if not (length intents == length ids)
    then none
    else if is_empty intents
    then none
    else if not (length fills == length intents)
    then none
    else do
      execution_plan ← build_execution_plan s.solver_address intents fills
      proofs ← build_proofs s intents fills
      build_solution s batch_id fills execution_plan proofs

abbrev pub settle_order :
    Setup
    → Text
    → OrderResult
    → List SolverIntent
    → List SolverIntent
    → Option Solution × List SolverIntent
settle_order s batch_id (order ids) buffered pending =
    let (intents, left) = take_ordered ids (complete s ids (insert_all buffered pending)) in
    (solve s batch_id ids intents, left)
settle_order s batch_id _ buffered pending = (none, pending)

abbrev is_zero : ℤ → Bool
is_zero (pos n) = n == 0
is_zero (negsuc n) = false

-- The handling of a closed batch: its count, the gateway's order, and the intents that the websocket
-- has delivered meanwhile, which are taken in only where the order is known. It gives the solution to
-- submit and the map of pending intents.
unfoldable pub handle_batch :
    Setup
    → Text
    → ℤ
    → OrderResult
    → List SolverIntent
    → List SolverIntent
    → Option Solution × List SolverIntent
unfolding take_ordered complete solve insert_all
handle_batch s batch_id intent_count ordered buffered pending =
    if is_zero intent_count
    then (none, pending)
    else settle_order s batch_id ordered buffered pending
