-- ===== src/Solver/Chain/Settlement.antt =====
-- What the settlement contract reads of the solver's call.
use blindmarkets.Base.{
  ℕ, zero, suc, ◌+◌, ◌*◌, ◌^◌, ◌≡◌, refl, List, [], ◌∷◌, ◌++◌, Option, none, some, unwrap_or, Text,
  length, arith,
}
use blindmarkets.Gateway.Crypto.{◌>>=◌}
use blindmarkets.Chain.{FeltReader, parse_felt, parse_felts}
use blindmarkets.Chain.Reading.{read_array, read_array-parse_felts}
use blindmarkets.Solver.Plan.{TransferPlan}
use blindmarkets.Solver.Chain.{transfer_felts, settle_calldata}

-- A transfer with a u256 amount, and a settlement, as the contract has them.
pub record Transfer : Type 0 where
  pub from : ℕ
  pub to : ℕ
  pub asset : ℕ
  pub amount : ℕ

pub record SettlementCall : Type 0 where
  pub batch : ℕ
  pub solver : ℕ
  pub transfers : List Transfer
  pub proofs : List ℕ

-- The reading of serialized values: an array is its length and its elements, a u256 its low half and
-- its high one.
unfoldable pub read_transfers : ℕ → List ℕ → Option (List Transfer × List ℕ)
read_transfers zero felts = some ([], felts)
read_transfers (suc n) (from ∷ to ∷ asset ∷ low ∷ high ∷ felts) = do
  (transfers, rest) ← read_transfers n felts
  some (
    record { from = from; to = to; asset = asset; amount = low + high * 2 ^ 128 } ∷ transfers,
    rest,
  )
read_transfers (suc n) _ = none

abbrev read_proofs : List ℕ → Option (List ℕ)
read_proofs [] = none
read_proofs (count ∷ felts) = read_array count felts

unfoldable pub read_settlement : List ℕ → Option SettlementCall
unfolding read_transfers read_array
read_settlement (batch ∷ solver ∷ count ∷ felts) = do
  (transfers, rest) ← read_transfers count felts
  proofs ← read_proofs rest
  some (record { batch = batch; solver = solver; transfers = transfers; proofs = proofs })
read_settlement _ = none

-- The transfers are those of the plan, with their amounts and their texts as field elements.
pub data Carries (r : FeltReader) : List TransferPlan → List Transfer → Type 0 where
  nothing : Carries r [] []
  carried :
      {p : TransferPlan} {t : Transfer} {plan : List TransferPlan} {transfers : List Transfer}
      → parse_felt r p.from ≡ some t.from
      → parse_felt r p.to ≡ some t.to
      → parse_felt r p.asset ≡ some t.asset
      → t.amount ≡ p.amount
      → Carries r plan transfers
      → Carries r (p ∷ plan) (t ∷ transfers)

module _ (r : FeltReader) where
  abbrev felt_of : Text → ℕ
  felt_of value = unwrap_or (parse_felt r value) 0

  read_transfers-transfer_felts :
      (plan : List TransferPlan) (felts rest : List ℕ)
      → transfer_felts r plan ≡ some felts
      → (transfers : List Transfer) × (read_transfers (length plan) (felts ++ rest)
          ≡ some (transfers, rest))
        × Carries r plan transfers
  unfolding transfer_felts read_transfers
  read_transfers-transfer_felts [] felts rest h =
      let none_left : felts ≡ [] = ground arith in ([], rw none_left refl, nothing)
  read_transfers-transfer_felts (p ∷ plan) felts rest h =
      let later = unwrap_or (transfer_felts r plan) [] in
      let later_felts : transfer_felts r plan ≡ some later = ground arith in
      let from_felt : parse_felt r p.from ≡ some (felt_of p.from) = ground arith in
      let to_felt : parse_felt r p.to ≡ some (felt_of p.to) = ground arith in
      let asset_felt : parse_felt r p.asset ≡ some (felt_of p.asset) = ground arith in
      let all_felts : felts
          ≡ felt_of p.from ∷ felt_of p.to ∷ felt_of p.asset ∷ p.amount ∷ 0 ∷ later =
        ground arith in
      let (transfers, found, carries) = read_transfers-transfer_felts plan later rest later_felts in
      (
        record {
          from = felt_of p.from;
          to = felt_of p.to;
          asset = felt_of p.asset;
          amount = p.amount + 0 * 2 ^ 128;
        }
            ∷ transfers,
        rw (all_felts, found) refl,
        carried from_felt to_felt asset_felt (omega arith) carries,
      )

-- The calldata of a settlement says what it is to say: the contract reads from it the batch, the
-- solver, the proofs, and just the transfers of the plan in their order, each with its whole u128
-- amount as a u256, and nothing is left over.
pub read_settlement-settle_calldata :
    (r : FeltReader) (batch_id solver_address : Text) (plan : List TransferPlan)
    (proofs : List Text) (calldata : List ℕ)
    → settle_calldata r batch_id solver_address plan proofs ≡ some calldata
    → (s : SettlementCall) × (read_settlement calldata ≡ some s)
      × (parse_felt r batch_id ≡ some s.batch)
      × (parse_felt r solver_address ≡ some s.solver)
      × (parse_felts r proofs ≡ some s.proofs)
      × Carries r plan s.transfers
unfolding settle_calldata read_settlement
read_settlement-settle_calldata r batch_id solver_address plan proofs calldata h =
    let batch = unwrap_or (parse_felt r batch_id) 0 in
    let solver = unwrap_or (parse_felt r solver_address) 0 in
    let felts = unwrap_or (transfer_felts r plan) [] in
    let proof_felts = unwrap_or (parse_felts r proofs) [] in
    let batch_felt : parse_felt r batch_id ≡ some batch = ground arith in
    let solver_felt : parse_felt r solver_address ≡ some solver = ground arith in
    let plan_felts : transfer_felts r plan ≡ some felts = ground arith in
    let proofs_read : parse_felts r proofs ≡ some proof_felts = ground arith in
    let whole : calldata ≡ batch ∷ solver ∷ length plan ∷ (felts ++ length proofs ∷ proof_felts) =
      ground arith in
    let (transfers, found, carries) =
      read_transfers-transfer_felts r plan felts (length proofs ∷ proof_felts) plan_felts in
    let array = read_array-parse_felts r proofs proof_felts proofs_read in
    (
      record { batch = batch; solver = solver; transfers = transfers; proofs = proof_felts },
      rw (whole, found, array) refl,
      batch_felt,
      solver_felt,
      proofs_read,
      carries,
    )
