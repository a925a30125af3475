-- ===== src/Solver/Plan/Payment.antt =====
-- What the users pay and get.
use mathlib.Core.Path.{subst}
use native.Mathlib.Nat.{div-add-mod}
use blindmarkets.Base.{
  ℕ, ◌*◌, ◌/◌, ◌%◌, ◌^◌, ◌≤◌, ◌<◌, ◌≡◌, refl, List, [], ◌∷◌, some, Text, Option-cases, inl, inr,
  arith,
}
use blindmarkets.Solver.Matching.{
  SolverIntent, Fill, MatchingEngine, create_internal_fill, price_of,
}
use blindmarkets.Solver.Plan.{TransferPlan, compute_output_amount, fill_for, build_execution_plan}

price_below :
    (a m : ℕ) → 0 < a → m * 1000000 < 2 ^ 128 → a * (m * 1000000 % 2 ^ 128 / a) ≤ m * 1000000
price_below a m positive small = omega (arith, div-add-mod (m * 1000000 % 2 ^ 128) a)

-- An intent that the solver fills itself is paid exactly what its user asks for at least: the price
-- is rounded down, and the payment up to the minimum again. Where the amount is positive and the
-- minimum times a million fits into a u128.
pub compute_output_amount-create_internal_fill :
    (e : MatchingEngine) (intent : SolverIntent) (fill : Fill)
    → 0 < intent.amount
    → intent.min_output * 1000000 < 2 ^ 128
    → create_internal_fill e intent ≡ some fill
    → compute_output_amount fill intent.min_output ≡ some intent.min_output
unfolding create_internal_fill compute_output_amount price_of
compute_output_amount-create_internal_fill e intent fill positive small h =
    ground (arith, price_below intent.amount intent.min_output positive small)

abbrev pub payment : Text → SolverIntent → TransferPlan
payment solver intent = record {
  from = intent.user_address;
  to = solver;
  asset = intent.asset_in;
  amount = intent.amount;
}

abbrev pub receipt : Text → SolverIntent → ℕ → TransferPlan
receipt solver intent output = record {
  from = solver;
  to = intent.user_address;
  asset = intent.asset_out;
  amount = output;
}

-- Two transfers for each intent, in order: its user gives the whole amount to the solver and gets at
-- least the minimum from it.
pub data Paid (solver : Text) : List SolverIntent → List TransferPlan → Type 0 where
  none_paid : Paid solver [] []
  paid :
      {intent : SolverIntent} {intents : List SolverIntent} {plan : List TransferPlan}
      (given got : TransferPlan)
      → given ≡ payment solver intent
      → got.from ≡ solver
      → got.to ≡ intent.user_address
      → got.asset ≡ intent.asset_out
      → intent.min_output ≤ got.amount
      → Paid solver intents plan
      → Paid solver (intent ∷ intents) (given ∷ got ∷ plan)

some-injective : {A : Type 0} {a b : A} → some a ≡ some b → a ≡ b
some-injective h = ground arith

compute_output_amount-ge :
    (fill : Fill) (min_output n : ℕ)
    → compute_output_amount fill min_output ≡ some n
    → min_output ≤ n
unfolding compute_output_amount
compute_output_amount-ge fill min_output n h = ground arith

-- What building the plan for one more intent has done.
plan_step :
    (solver : Text) (intent : SolverIntent) (intents : List SolverIntent) (fills : List Fill)
    (plan : List TransferPlan)
    → build_execution_plan solver (intent ∷ intents) fills ≡ some plan
    → (fill : Fill) × (output : ℕ) × (rest : List TransferPlan) × (compute_output_amount fill
          intent.min_output
        ≡ some output)
      × (build_execution_plan solver intents fills ≡ some rest)
      × (plan ≡ payment solver intent ∷ receipt solver intent output ∷ rest)
unfolding build_execution_plan
plan_step solver intent intents fills plan h =
    elim (Option-cases (fill_for intent.intent_id fills)) [
      | inl q ↦ absurd (ground (arith, q))
      | inr (fill, q) ↦ elim (Option-cases (compute_output_amount fill intent.min_output)) [
        | inl q' ↦ absurd (ground (arith, q, q'))
        | inr (output, q') ↦ elim (Option-cases (build_execution_plan solver intents fills)) [
          | inl q'' ↦ absurd (ground (arith, q, q', q''))
          | inr (rest, q'') ↦ (fill, output, rest, q', q'', ground (arith, q, q', q''))
        ]
      ]
    ]

-- A plan that is built pays every intent: each user gives the whole amount of what is sold to the
-- solver, and gets at least the minimum of what is bought.
pub build_execution_plan-Paid :
    (solver : Text) (intents : List SolverIntent) (fills : List Fill) (plan : List TransferPlan)
    → build_execution_plan solver intents fills ≡ some plan
    → Paid solver intents plan
unfolding build_execution_plan
build_execution_plan-Paid solver [] fills plan h =
    subst (Paid solver []) (some-injective h) none_paid
build_execution_plan-Paid solver (intent ∷ intents) fills plan h =
    let (fill, output, rest, q, built, plan_is) = plan_step solver intent intents fills plan h in
    rw plan_is (
      paid _ _ refl refl refl refl (compute_output_amount-ge fill intent.min_output output q)
        (build_execution_plan-Paid solver intents fills rest built))
