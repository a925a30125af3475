-- ===== src/Witnesses/Filling.antt =====
-- The theorems on the solver's round at concrete inputs.
use blindmarkets.Base.{
  starts_with, ℕ, pos, ◌≡◌, ◌<◌, refl, ◌+◌, ◌*◌, ◌%◌, ◌⊎◌, true, false, none, some, List, [], ◌∷◌,
  Text, text_eq, codes, length, retain, map, all, is_ascii_digit, any, if◌then◌else◌, arith,
}
use blindmarkets.Gateway.Types.{Intent}
use blindmarkets.Gateway.Exec.{ok, ◌>>=◌, pure, query, round_trip, get_db}
use blindmarkets.Gateway.Auth.{require_api_key}
use blindmarkets.Gateway.RateLimit.{count_of, incr, check_rate_limit, check_ip_limit}
use blindmarkets.Gateway.Query.{page, check_limit, list_batch_intents}
use blindmarkets.Solver.Matching.{
  SolverIntent, Fill, available, can_fill_internally, price_of, create_internal_fill,
}
use blindmarkets.Solver.Plan.{
  fill_for, compute_output_amount, build_execution_plan, compute_settlement_hash, hash_transfers,
  field_from_hex,
}
use blindmarkets.Solver.Plan.Payment.{payment, receipt}
use blindmarkets.Solver.Ordering.{order, as_reply, fetch_batch_intent_order}
use blindmarkets.Solver.Ordering.Paging.{open_ids, fetch_batch_intent_order-list_batch_intents}
use blindmarkets.Solver.Liquidity.{
  QuoteRequest, QuoteReply, no_reply, quote, request_of, best_of, find_best_route,
}
use blindmarkets.Solver.Liquidity.Best.{IsBest, is_no_quote, find_best_route-IsBest}
use blindmarkets.Solver.Inbox.{refused}
use blindmarkets.Solver.Round.{
  Solution, Setup, handle_batch, complete, insert_all, insert, find_intent, missing_of,
  take_ordered, fill_intent, fill_intents, proof_for, build_proofs, calculate_total_surplus,
  build_solution, solve,
}
use blindmarkets.Solver.Round.Sources.{source_of}
use blindmarkets.Solver.Round.Whole.{IsWhole, handle_batch-IsWhole}
use blindmarkets.Witnesses.Sound.{primitives}
use blindmarkets.Witnesses.Data.{env, call, held_world, held_db, row}

-- The gateway whose table holds the one row, asked for a page from each offset.
abbrev ids_from : ℕ → List Text
ids_from offset = map (λ (i : Intent). i.intent_id) (page 50 offset (row ∷ []))

listed :
    (offset : ℕ)
    → (list_batch_intents env call (codes "1") none (some offset) held_world).0
      ≡ ok (ids_from offset)
unfolding list_batch_intents require_api_key text_eq check_ip_limit check_rate_limit query
    round_trip get_db pure ◌>>=◌ retain count_of incr check_limit page all is_ascii_digit
listed offset = refl

enough : length (open_ids (codes "1") held_db) < 2
unfolding retain text_eq
enough = omega arith

fetch_batch_intent_order-list_batch_intents_example :
    fetch_batch_intent_order
      (λ offset. as_reply (list_batch_intents env call (codes "1") none (some offset) held_world).0)
      2
    ≡ order (open_ids (codes "1") held_db)
fetch_batch_intent_order-list_batch_intents_example =
    fetch_batch_intent_order-list_batch_intents env (λ _. call) (λ _. held_world) held_db
      (codes "1") 2 ids_from (λ _. refl) listed enough

abbrev intent : SolverIntent
intent = record {
  intent_id = codes "0x1";
  user_address = codes "0xa1";
  asset_in = codes "0xb2";
  asset_out = codes "0xc3";
  amount = 700;
  min_output = 500;
  privacy_mode = 0;
}

-- Two exchanges; only the second quotes a price.
abbrev ask : Text → QuoteRequest → QuoteReply
ask endpoint request =
    if text_eq endpoint (codes "http://b") then quote 800000 (codes "b") else no_reply

abbrev endpoints : List Text
endpoints = codes "http://a" ∷ codes "http://b" ∷ []

find_best_route-IsBest_example :
    ((find_best_route ask intent endpoints ≡ none)
      × (all (λ e. is_no_quote (ask e (request_of intent))) endpoints ≡ true))
    ⊎ ((fill : Fill) × (find_best_route ask intent endpoints ≡ some fill)
        × IsBest ask intent endpoints fill)
find_best_route-IsBest_example = find_best_route-IsBest ask intent endpoints

-- Nothing in stock, so that the fill is the exchange's; the intent has come over the websocket.
abbrev setup : Setup
setup = record {
  solver_address = codes "0x5";
  solver_fee_bps = 10;
  engine = record { internal_inventory = []; accept_all = false };
  dex_endpoints = endpoints;
  primitives = primitives;
  solver_private_key = codes "0x1";
  from_slice = λ b. none;
  get_solver_intents = λ key ids. refused;
  ask = ask;
  proof_service = none;
  felt_from_hex = λ s. some (length s);
  felt_from_dec_str = λ s. some (length s);
  pedersen_hash = λ a b. (3 * a + 5 * b + 1) % 1000003;
  to_hex = λ n. codes "0x7";
}

abbrev fill : Fill
fill = record {
  intent_id = codes "0x1";
  fill_amount = 700;
  execution_price = 800000;
  liquidity_source = codes "b";
}

abbrev solution : Solution
solution = record {
  batch_id = codes "7";
  solver_address = codes "0x5";
  solution_commitment = codes "0x7";
  estimated_surplus = 7;
  solver_fee_bps = 10;
  fills = fill ∷ [];
  execution_plan = payment (codes "0x5") intent ∷ receipt (codes "0x5") intent 560 ∷ [];
  proofs = codes "0x0" ∷ [];
}

handled :
    handle_batch setup (codes "7") (pos 1) (order (codes "0x1" ∷ [])) (intent ∷ []) []
    ≡ (some solution, [])
unfolding handle_batch complete insert_all insert find_intent missing_of take_ordered fill_intent
    fill_intents proof_for build_proofs calculate_total_surplus build_solution solve best_of
    find_best_route create_internal_fill can_fill_internally available price_of build_execution_plan
    fill_for compute_output_amount compute_settlement_hash hash_transfers field_from_hex starts_with
    text_eq retain any
handled = refl

handle_batch-IsWhole_example :
    (ids : List Text) × (intents : List SolverIntent) × (order (codes "0x1" ∷ []) ≡ order ids)
    × IsWhole setup (codes "7") (source_of setup ids (intent ∷ []) []) ids intents solution
handle_batch-IsWhole_example =
    handle_batch-IsWhole setup (codes "7") (pos 1) (order (codes "0x1" ∷ [])) (intent ∷ []) [] []
      solution handled
