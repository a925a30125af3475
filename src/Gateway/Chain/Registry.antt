-- ===== src/Gateway/Chain/Registry.antt =====
-- What the intent registry reads of the gateway's call.
use blindmarkets.Base.{
  ℕ, ◌+◌, ◌*◌, ◌^◌, ◌<◌, ◌≡◌, refl, List, [], ◌∷◌, Option, none, some, unwrap_or, Text, length,
  arith,
}
use blindmarkets.Gateway.Types.{IntentCommitment}
use blindmarkets.Gateway.Crypto.{◌>>=◌}
use blindmarkets.Chain.{FeltReader, parse_felt, parse_felts}
use blindmarkets.Chain.Reading.{read_array, read_array-parse_felts}
use blindmarkets.Gateway.Chain.{parse_signature, commit_calldata}

pub record CommitCall : Type 0 where
  pub intent_id : ℕ
  pub user_address : ℕ
  pub intent_hash : ℕ
  pub nonce : ℕ
  pub asset_in : ℕ
  pub asset_out : ℕ
  pub amount_commitment : ℕ
  pub min_output : ℕ
  pub max_fee_bps : ℕ
  pub deadline : ℕ
  pub privacy_mode : ℕ
  pub signature : List ℕ

-- The reading of serialized values, as of the arguments of the registry's `commit_intent`.
unfoldable pub read_commit : List ℕ → Option CommitCall
unfolding read_array
read_commit
      (id ∷ user ∷ hash ∷ nonce ∷ in' ∷ out ∷ amount ∷ low ∷ high ∷ fee ∷ deadline ∷ mode ∷ count
        ∷ felts) =
    do
      signature ← read_array count felts
      some (record {
        intent_id = id;
        user_address = user;
        intent_hash = hash;
        nonce = nonce;
        asset_in = in';
        asset_out = out;
        amount_commitment = amount;
        min_output = low + high * 2 ^ 128;
        max_fee_bps = fee;
        deadline = deadline;
        privacy_mode = mode;
        signature = signature;
      })
read_commit _ = none

length-parse_felts :
    (r : FeltReader) (values : List Text) (felts : List ℕ)
    → parse_felts r values ≡ some felts
    → length felts ≡ length values
unfolding parse_felts
length-parse_felts r [] felts h = ground arith
length-parse_felts r (value ∷ values) felts h =
    ground (arith, length-parse_felts r values (unwrap_or (parse_felts r values) []))

parse_signature-array :
    (r : FeltReader) (signature : List Text) (felts : List ℕ)
    → parse_signature r signature ≡ some felts
    → (read_array (length felts) felts ≡ some felts) × (0 < length felts)
unfolding parse_signature
parse_signature-array r [] felts h = absurd (ground arith)
parse_signature-array r (value ∷ values) felts h =
    let same = length-parse_felts r (value ∷ values) felts h in
    (rw same (read_array-parse_felts r (value ∷ values) felts h), omega (arith, same))

-- The call is of the commitment, field by field, and of the signature.
pub record IsCommitOf (r : FeltReader) (c : IntentCommitment) (signature : List Text)
    (k : CommitCall) : Type 0 where
  pub intent_id : parse_felt r c.intent_id ≡ some k.intent_id
  pub user_address : parse_felt r c.user_address ≡ some k.user_address
  pub intent_hash : parse_felt r c.intent_hash ≡ some k.intent_hash
  pub nonce : parse_felt r c.nonce ≡ some k.nonce
  pub asset_in : parse_felt r c.asset_in ≡ some k.asset_in
  pub asset_out : parse_felt r c.asset_out ≡ some k.asset_out
  pub amount_commitment : parse_felt r c.amount_commitment ≡ some k.amount_commitment
  pub min_output : parse_felt r c.min_output ≡ some k.min_output
  pub max_fee_bps : k.max_fee_bps ≡ c.max_fee_bps
  pub deadline : k.deadline ≡ c.deadline
  pub privacy_mode : k.privacy_mode ≡ c.privacy_mode
  pub signed : parse_felts r signature ≡ some k.signature
  pub not_empty : 0 < length k.signature

module _ (r : FeltReader) where
  abbrev felt_of : Text → ℕ
  felt_of value = unwrap_or (parse_felt r value) 0

  abbrev call_of : IntentCommitment → List ℕ → CommitCall
  call_of c signature = record {
    intent_id = felt_of c.intent_id;
    user_address = felt_of c.user_address;
    intent_hash = felt_of c.intent_hash;
    nonce = felt_of c.nonce;
    asset_in = felt_of c.asset_in;
    asset_out = felt_of c.asset_out;
    amount_commitment = felt_of c.amount_commitment;
    min_output = felt_of c.min_output;
    max_fee_bps = c.max_fee_bps;
    deadline = c.deadline;
    privacy_mode = c.privacy_mode;
    signature = signature;
  }

parse_signature-parse_felts :
    (r : FeltReader) (signature : List Text) (felts : List ℕ)
    → parse_signature r signature ≡ some felts
    → parse_felts r signature ≡ some felts
unfolding parse_signature
parse_signature-parse_felts r [] felts h = absurd (ground arith)
parse_signature-parse_felts r (value ∷ values) felts h = h

-- The calldata of a commit says what it is to say: the registry reads from it the fields of the
-- commitment in its own order, the minimum as a u256, and the signature, which is not empty, and
-- nothing is left over.
pub read_commit-commit_calldata :
    (r : FeltReader) (c : IntentCommitment) (signature : List Text) (calldata : List ℕ)
    → commit_calldata r c signature ≡ some calldata
    → (k : CommitCall) × (read_commit calldata ≡ some k) × IsCommitOf r c signature k
unfolding commit_calldata read_commit
read_commit-commit_calldata r c signature calldata h =
    let fields = unwrap_or (parse_signature r signature) [] in
    let signed : parse_signature r signature ≡ some fields = ground arith in
    let (array, not_empty) = parse_signature-array r signature fields signed in
    let found : read_commit calldata ≡ some (call_of r c fields) = ground (arith, array) in
    (
      call_of r c fields,
      found,
      record {
        intent_id = ground arith;
        user_address = ground arith;
        intent_hash = ground arith;
        nonce = ground arith;
        asset_in = ground arith;
        asset_out = ground arith;
        amount_commitment = ground arith;
        min_output = ground arith;
        max_fee_bps = refl;
        deadline = refl;
        privacy_mode = refl;
        signed = parse_signature-parse_felts r signature fields signed;
        not_empty = not_empty;
      },
    )
