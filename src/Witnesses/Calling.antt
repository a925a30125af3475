-- ===== src/Witnesses/Calling.antt =====
-- The theorems on the calls of contracts at concrete inputs.
use blindmarkets.Base.{ℕ, ◌≡◌, refl, some, List, [], ◌∷◌, Text, codes, starts_with, length}
use blindmarkets.Chain.{FeltReader, parse_felt, parse_felts}
use blindmarkets.Gateway.Types.{IntentCommitment}
use blindmarkets.Gateway.Chain.{parse_signature, commit_calldata}
use blindmarkets.Gateway.Chain.Registry.{
  CommitCall, read_commit, IsCommitOf, read_commit-commit_calldata,
}
use blindmarkets.Solver.Plan.{TransferPlan}
use blindmarkets.Solver.Chain.{transfer_felts, settle_calldata}
use blindmarkets.Solver.Chain.Settlement.{
  SettlementCall, read_settlement, Carries, read_settlement-settle_calldata,
}

-- A text is read as its length.
abbrev reader : FeltReader
reader = record { from_hex = λ s. some (length s); from_dec_str = λ s. some (length s) }

abbrev plan : List TransferPlan
plan =
    record { from = codes "0xa1"; to = codes "0x5"; asset = codes "0xb2"; amount = 700 }
    ∷ record { from = codes "0x5"; to = codes "0xa1"; asset = codes "0xc3"; amount = 560 }
    ∷ []

abbrev settlement_felts : List ℕ
settlement_felts = 1 ∷ 3 ∷ 2 ∷ 4 ∷ 3 ∷ 4 ∷ 700 ∷ 0 ∷ 3 ∷ 4 ∷ 4 ∷ 560 ∷ 0 ∷ 1 ∷ 3 ∷ []

settled :
    settle_calldata reader (codes "7") (codes "0x5") plan (codes "0x0" ∷ []) ≡ some settlement_felts
unfolding settle_calldata transfer_felts parse_felts parse_felt starts_with
settled = refl

read_settlement-settle_calldata_example :
    (s : SettlementCall) × (read_settlement settlement_felts ≡ some s)
    × (parse_felt reader (codes "7") ≡ some s.batch)
    × (parse_felt reader (codes "0x5") ≡ some s.solver)
    × (parse_felts reader (codes "0x0" ∷ []) ≡ some s.proofs)
    × Carries reader plan s.transfers
read_settlement-settle_calldata_example =
    read_settlement-settle_calldata reader (codes "7") (codes "0x5") plan (codes "0x0" ∷ [])
      settlement_felts settled

abbrev commitment : IntentCommitment
commitment = record {
  intent_id = codes "0x75033";
  user_address = codes "0xa1";
  intent_hash = codes "0x172d2";
  nonce = codes "0xd4";
  asset_in = codes "0xb2";
  asset_out = codes "0xc3";
  amount_commitment = codes "0xa01";
  min_output = codes "400";
  max_fee_bps = 30;
  deadline = 1700000100;
  privacy_mode = 1;
}

abbrev signature : List Text
signature = codes "0x11" ∷ codes "0x22" ∷ []

abbrev commit_felts : List ℕ
commit_felts = 7 ∷ 4 ∷ 7 ∷ 4 ∷ 4 ∷ 4 ∷ 5 ∷ 3 ∷ 0 ∷ 30 ∷ 1700000100 ∷ 1 ∷ 2 ∷ 4 ∷ 4 ∷ []

committed : commit_calldata reader commitment signature ≡ some commit_felts
unfolding commit_calldata parse_signature parse_felts parse_felt starts_with
committed = refl

read_commit-commit_calldata_example :
    (k : CommitCall) × (read_commit commit_felts ≡ some k)
    × IsCommitOf reader commitment signature k
read_commit-commit_calldata_example =
    read_commit-commit_calldata reader commitment signature commit_felts committed
