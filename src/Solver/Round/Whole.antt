-- ===== src/Solver/Round/Whole.antt =====
-- That a solution is for the whole batch.
use blindmarkets.Base.{
  ◌≤◌, ◌<◌, ℤ, ◌≡◌, refl, ap, ◌∙◌, false, inl, inr, List, [], ◌∷◌, Option, none, some, unwrap_or,
  Text, text_eq→eq, length, length_pos, is_empty, arith,
}
use blindmarkets.Solver.Matching.{SolverIntent, Fill, create_internal_fill}
use blindmarkets.Solver.Plan.{build_execution_plan}
use blindmarkets.Solver.Plan.Payment.{Paid, build_execution_plan-Paid}
use blindmarkets.Solver.Ordering.{OrderResult, order, order_error, out_of_fuel}
use blindmarkets.Solver.Liquidity.Best.{find_best_route-IsBest}
use blindmarkets.Solver.Round.Sources.{
  source_of, Taken, nothing, taken, Covers, find_intent-complete, take_ordered-complete,
}
use blindmarkets.Solver.Round.{
  push_fill, Solution, Setup, complete, insert_all, find_intent, take_ordered, fill_intent,
  fill_intents, build_proofs, build_solution, solve, handle_batch,
}

abbrev pub intent_ids : List SolverIntent → List Text
intent_ids [] = []
intent_ids (intent ∷ intents) = intent.intent_id ∷ intent_ids intents

abbrev pub fill_ids : List Fill → List Text
fill_ids [] = []
fill_ids (fill ∷ fills) = fill.intent_id ∷ fill_ids fills

find_intent-id :
    (id : Text) (pending : List SolverIntent) (intent : SolverIntent)
    → find_intent id pending ≡ some intent
    → intent.intent_id ≡ id
unfolding find_intent
find_intent-id id [] intent h = absurd (cc)
find_intent-id id (other ∷ pending) intent h =
    ground (arith, text_eq→eq other.intent_id id, find_intent-id id pending intent)

abbrev FillsCover : List SolverIntent → List Fill → Type 0
FillsCover intents fills =
    (length fills ≤ length intents)
    × (length fills ≡ length intents → fill_ids fills ≡ intent_ids intents)

push_fill-FillsCover :
    (intent : SolverIntent) (intents : List SolverIntent) (fills : List Fill) (found : Option Fill)
    → ((fill : Fill) → found ≡ some fill → fill.intent_id ≡ intent.intent_id)
    → FillsCover intents fills
    → FillsCover (intent ∷ intents) (push_fill found fills)
push_fill-FillsCover intent intents fills none f (le, eq) =
    (omega (arith, le), λ h. absurd (omega (arith, le, h)))
push_fill-FillsCover intent intents fills (some fill) f (le, eq) =
    (omega (arith, le), λ h. ground (arith, f fill refl, eq (omega (arith, h))))

source_of-id :
    (s : Setup) (ids : List Text) (buffered pending : List SolverIntent) (id : Text)
    (intent : SolverIntent)
    → source_of s ids buffered pending id ≡ some intent
    → intent.intent_id ≡ id
source_of-id s ids buffered pending id intent h =
    find_intent-id id (complete s ids (insert_all buffered pending)) intent
      (find_intent-complete s id ids buffered pending ∙ h)

Taken-ids :
    (source : Text → Option SolverIntent) (ids : List Text) (intents : List SolverIntent)
    → ((id : Text) (intent : SolverIntent) → source id ≡ some intent → intent.intent_id ≡ id)
    → Taken source ids intents
    → intent_ids intents ≡ ids
Taken-ids source _ _ f nothing = refl
Taken-ids source (id ∷ ids) (intent ∷ intents) f (taken h rest) =
    ground (arith, f id intent h, Taken-ids source ids intents f rest)

fill_intent-id :
    (s : Setup) (intent : SolverIntent) (fill : Fill)
    → fill_intent s intent ≡ some fill
    → fill.intent_id ≡ intent.intent_id
unfolding fill_intent create_internal_fill
fill_intent-id s intent fill h = elim (find_best_route-IsBest s.ask intent s.dex_endpoints) [
  | inl (missing, _) ↦ ground (arith, missing)
  | inr (route, found, best) ↦ ground (arith, found, best.of_intent)
]

fill_intents-FillsCover :
    (s : Setup) (intents : List SolverIntent) → FillsCover intents (fill_intents s intents)
unfolding fill_intents
fill_intents-FillsCover s [] = (omega arith, λ _. refl)
fill_intents-FillsCover s (intent ∷ intents) =
    push_fill-FillsCover intent intents _ (fill_intent s intent) (fill_intent-id s intent)
      (fill_intents-FillsCover s intents)

length-build_proofs :
    (s : Setup) (intents : List SolverIntent) (fills : List Fill) (proofs : List Text)
    → build_proofs s intents fills ≡ some proofs
    → length proofs ≡ length intents
unfolding build_proofs
length-build_proofs s [] fills proofs h = ground arith
length-build_proofs s (intent ∷ intents) fills proofs h =
    ground
      (arith, length-build_proofs s intents fills (unwrap_or (build_proofs s intents fills) []))

-- What is known of a solution to the intents of a batch, where `source` gives the intent of an id.
pub record IsWhole (s : Setup) (batch_id : Text) (source : Text → Option SolverIntent)
    (ids : List Text) (intents : List SolverIntent) (solution : Solution) : Type 0 where
  pub from_source : Taken source ids intents
  pub ordered : intent_ids intents ≡ ids
  pub some_intent : 0 < length ids
  pub filled : fill_ids solution.fills ≡ ids
  pub paid : Paid s.solver_address intents solution.execution_plan
  pub proved : length solution.proofs ≡ length ids
  pub batch : solution.batch_id ≡ batch_id

solve-IsWhole :
    (s : Setup) (batch_id : Text) (source : Text → Option SolverIntent) (ids : List Text)
    (intents : List SolverIntent) (solution : Solution)
    → ((id : Text) (intent : SolverIntent) → source id ≡ some intent → intent.intent_id ≡ id)
    → Covers source ids intents
    → solve s batch_id ids intents ≡ some solution
    → IsWhole s batch_id source ids intents solution
unfolding solve build_solution
solve-IsWhole s batch_id source ids intents solution named (le, eq) h =
    let fills = fill_intents s intents in
    let plan = unwrap_or (build_execution_plan s.solver_address intents fills) [] in
    let proofs = unwrap_or (build_proofs s intents fills) [] in
    let all_taken : length intents ≡ length ids = ground arith in
    let all_filled : length fills ≡ length intents = ground arith in
    let planned : build_execution_plan s.solver_address intents fills ≡ some plan = ground arith in
    let proved : build_proofs s intents fills ≡ some proofs = ground arith in
    let ordered = Taken-ids source ids intents named (eq all_taken) in
    let not_empty : is_empty intents ≡ false = ground arith in
    let same_fills : solution.fills ≡ fills = ground arith in
    let same_plan : solution.execution_plan ≡ plan = ground arith in
    let same_proofs : solution.proofs ≡ proofs = ground arith in
    record {
      from_source = eq all_taken;
      ordered = ordered;
      some_intent = omega (arith, all_taken, length_pos intents not_empty);
      filled = ap fill_ids same_fills ∙ (fill_intents-FillsCover s intents).1 all_filled ∙ ordered;
      paid = rw same_plan (build_execution_plan-Paid s.solver_address intents fills plan planned);
      proved =
          ap length same_proofs ∙ length-build_proofs s intents fills proofs proved ∙ all_taken;
      batch = ground arith;
    }

-- Where a closed batch leads to a solution, the solution is for the whole batch: the gateway has
-- given the order of its ids, which are not none. The intents are those of the ids, in this order,
-- each the last that the gateway has answered under its id where it was asked, else the last that the
-- websocket has delivered meanwhile, else that of the map. Each has one fill and one proof, and the
-- plan takes the whole amount from every user and gives at least the minimum.
pub handle_batch-IsWhole :
    (s : Setup) (batch_id : Text) (intent_count : ℤ) (ordered : OrderResult)
    (buffered pending left : List SolverIntent) (solution : Solution)
    → handle_batch s batch_id intent_count ordered buffered pending ≡ (some solution, left)
    → (ids : List Text) × (intents : List SolverIntent) × (ordered ≡ order ids)
      × IsWhole s batch_id (source_of s ids buffered pending) ids intents solution
unfolding handle_batch
handle_batch-IsWhole s batch_id intent_count (order ids) buffered pending left solution h = (
  ids,
  (take_ordered ids (complete s ids (insert_all buffered pending))).0,
  refl,
  solve-IsWhole s batch_id (source_of s ids buffered pending) ids _ solution
      (source_of-id s ids buffered pending) (take_ordered-complete s ids buffered pending)
      (ground arith),
)
handle_batch-IsWhole s batch_id intent_count (order_error e) buffered pending left solution h =
    absurd (ground arith)
handle_batch-IsWhole s batch_id intent_count out_of_fuel buffered pending left solution h =
    absurd (ground arith)
