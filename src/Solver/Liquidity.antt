-- ===== src/Solver/Liquidity.antt =====
-- solver-reference/src/liquidity_aggregator.rs. `ask` gives what a request for a quote to an endpoint
-- comes to.
pub mod Best
use blindmarkets.Base.{ℕ, Bool, true, List, [], ◌∷◌, Option, none, some, Text, ltb, if◌then◌else◌}
use blindmarkets.Solver.Matching.{SolverIntent, Fill}

pub record QuoteRequest : Type 0 where
  pub asset_in : Text
  pub asset_out : Text
  pub amount : ℕ
  pub min_output : ℕ

pub data QuoteReply : Type 0 where
  no_reply refused invalid_quote : QuoteReply
  quote : (execution_price : ℕ) (liquidity_source : Text) → QuoteReply

abbrev pub request_of : SolverIntent → QuoteRequest
request_of intent = record {
  asset_in = intent.asset_in;
  asset_out = intent.asset_out;
  amount = intent.amount;
  min_output = intent.min_output;
}

abbrev is_better : Fill → Option Fill → Bool
is_better fill none = true
is_better fill (some current) = ltb current.execution_price fill.execution_price

module _ (ask : Text → QuoteRequest → QuoteReply) (intent : SolverIntent) where
  abbrev pub quoted : ℕ → Text → Fill
  quoted execution_price liquidity_source = record {
    intent_id = intent.intent_id;
    fill_amount = intent.amount;
    execution_price = execution_price;
    liquidity_source = liquidity_source;
  }

  -- One round of the loop; each `continue` keeps what was the best.
  abbrev pub take_quote : QuoteReply → Option Fill → Option Fill
  take_quote (quote price source) best =
      if is_better (quoted price source) best then some (quoted price source) else best
  take_quote _ best = best

  unfoldable pub best_of : List Text → Option Fill → Option Fill
  best_of [] best = best
  best_of (endpoint ∷ endpoints) best =
      best_of endpoints (take_quote (ask endpoint (request_of intent)) best)

  unfoldable pub find_best_route : List Text → Option Fill
  unfolding best_of
  find_best_route dex_endpoints = best_of dex_endpoints none
