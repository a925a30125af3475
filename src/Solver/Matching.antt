-- ===== src/Solver/Matching.antt =====
-- solver-reference/src/matching_engine.rs. The inventory is an association list; a u128 product or sum
-- wraps.
use blindmarkets.Base.{
  ℕ, ◌+◌, ◌*◌, ◌/◌, ◌%◌, ◌^◌, Bool, true, false, List, [], ◌∷◌, Option, none, some, Text, codes,
  text_eq, ltb, leb, if◌then◌else◌,
}

-- The intent as the solver reads it (intent_monitor.rs), with its id; the fields that it uses.
pub record SolverIntent : Type 0 where
  pub intent_id : Text
  pub user_address : Text
  pub asset_in : Text
  pub asset_out : Text
  pub amount : ℕ  -- u128
  pub min_output : ℕ  -- u128
  pub privacy_mode : ℕ  -- u8

pub record Fill : Type 0 where
  pub intent_id : Text
  pub fill_amount : ℕ  -- u128
  pub execution_price : ℕ  -- u128
  pub liquidity_source : Text

pub record Stock : Type 0 where
  pub asset : Text
  pub amount : ℕ  -- u128

pub record MatchingEngine : Type 0 where
  pub internal_inventory : List Stock
  pub accept_all : Bool

abbrev pub wrap_u128 : ℕ → ℕ
wrap_u128 n = n % 2 ^ 128

unfoldable pub new : MatchingEngine
new = record { internal_inventory = []; accept_all = false }

unfoldable pub with_accept_all : MatchingEngine → MatchingEngine
with_accept_all e = record e { accept_all = true }

unfoldable pub available : Text → List Stock → ℕ
available asset [] = 0
available asset (s ∷ ss) = if text_eq s.asset asset then s.amount else available asset ss

unfoldable pub stock_up : Text → ℕ → List Stock → List Stock
stock_up asset amount [] = record { asset = asset; amount = wrap_u128 amount } ∷ []
stock_up asset amount (s ∷ ss) =
    if text_eq s.asset asset
    then record s { amount = wrap_u128 (s.amount + amount) } ∷ ss
    else s ∷ stock_up asset amount ss

unfoldable pub add_inventory : Text → ℕ → MatchingEngine → MatchingEngine
unfolding stock_up
add_inventory asset amount e = record e {
  internal_inventory = stock_up asset amount e.internal_inventory;
}

unfoldable pub can_fill_internally : MatchingEngine → SolverIntent → Bool
can_fill_internally e intent =
    leb intent.min_output (available intent.asset_out e.internal_inventory)

unfoldable pub price_of : SolverIntent → ℕ
price_of intent =
    if ltb 0 intent.amount then wrap_u128 (intent.min_output * 1000000) / intent.amount else 1000000

abbrev fill_of : SolverIntent → Text → Fill
fill_of intent source = record {
  intent_id = intent.intent_id;
  fill_amount = intent.amount;
  execution_price = price_of intent;
  liquidity_source = source;
}

unfoldable pub create_internal_fill : MatchingEngine → SolverIntent → Option Fill
unfolding can_fill_internally price_of
create_internal_fill e intent =
    if e.accept_all
    then some (fill_of intent (codes "accept_all"))
    else if can_fill_internally e intent
    then some (fill_of intent (codes "internal_inventory"))
    else none
