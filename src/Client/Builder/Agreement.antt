-- ===== src/Client/Builder/Agreement.antt =====
-- The hashes of the client and those of the gateway.
use blindmarkets.Base.{ℕ, ◌≤◌, ◌<◌, ◌≡◌, true, some, unwrap_or, Text, codes, starts_with, arith}
use blindmarkets.Gateway.Exec.{Result}
use blindmarkets.Gateway.Hex.{is_hex_felt}
use blindmarkets.Gateway.Hashes.{
  field_element_from_hex, intent_hash_of, compute_amount_commitment, compute_intent_hash,
  compute_intent_id,
}
use blindmarkets.Gateway.Env.{Env}
use blindmarkets.Client.Builder.{
  IntentBuilder, Intent, IntentCommitment, SdkResult, PrivacyMode, as_u8, Felts, felt_from_hex,
  build, create_commitment, public, hidden_amount, hidden_direction_and_amount,
}
use blindmarkets.Client.Builder

-- The client's field elements are the gateway's, and a printed hash is a text that reads back.
abbrev pub felts_of : Env → (ℕ → Text) → Felts
felts_of env to_hex = record {
  from_hex_be = env.felt_from_hex;
  to_hex = to_hex;
  pedersen_hash = env.pedersen_hash;
}

pub record IsPrinted (f : Felts) : Type 0 where
  pub reads_back :
      (a b : ℕ) → f.from_hex_be (f.to_hex (f.pedersen_hash a b)) ≡ some (f.pedersen_hash a b)
  pub is_felt : (a b : ℕ) → is_hex_felt (f.to_hex (f.pedersen_hash a b)) ≡ true

pub record IsHexIntent (i : Intent) : Type 0 where
  pub user : is_hex_felt i.user_address ≡ true
  pub asset_in : is_hex_felt i.asset_in ≡ true
  pub asset_out : is_hex_felt i.asset_out ≡ true
  pub nonce : is_hex_felt i.nonce ≡ true

module _ (f : Felts) where
  abbrev value : Text → ℕ
  value s = unwrap_or (f.from_hex_be s) 0

  abbrev hash_of : Intent → ℕ
  hash_of i =
      intent_hash_of f.from_hex_be f.pedersen_hash (value i.user_address) (value i.asset_in)
        (value i.asset_out) (f.pedersen_hash i.amount (value i.nonce)) i.min_output i.max_fee_bps
        i.deadline (as_u8 i.privacy_mode) (value i.nonce)

  record IsBuilt (now : ℕ) (i : Intent) : Type 0 where
    pub amount_pos : 0 < i.amount
    pub min_output_pos : 0 < i.min_output
    pub fee_bounded : i.max_fee_bps ≤ 10000
    pub deadline_after : now < i.deadline
    pub user_felt : f.from_hex_be i.user_address ≡ some (value i.user_address)
    pub in_felt : f.from_hex_be i.asset_in ≡ some (value i.asset_in)
    pub out_felt : f.from_hex_be i.asset_out ≡ some (value i.asset_out)
    pub nonce_felt : f.from_hex_be i.nonce ≡ some (value i.nonce)
    pub amount_commitment :
        i.amount_commitment ≡ f.to_hex (f.pedersen_hash i.amount (value i.nonce))
    pub id :
        i.intent_id
        ≡ f.to_hex
            (f.pedersen_hash (f.pedersen_hash (value i.user_address) (value i.nonce)) (hash_of i))

  prefix_of : (s : Text) → is_hex_felt s ≡ true → starts_with s (codes "0x") ≡ true
  unfolding is_hex_felt
  prefix_of s h = ground arith

  build-IsBuilt :
      (now : ℕ) (generated : Text) (b : IntentBuilder) (i : Intent)
      → build f now generated b ≡ SdkResult.ok i
      → IsHexIntent i
      → IsBuilt now i
  unfolding build Builder.compute_amount_commitment Builder.compute_intent_hash
      Builder.compute_intent_id felt_from_hex intent_hash_of
  build-IsBuilt now generated b i h x = record {
    amount_pos = ground arith;
    min_output_pos = ground arith;
    fee_bounded = ground arith;
    deadline_after = ground arith;
    user_felt = ground (arith, prefix_of i.user_address x.user);
    in_felt = ground (arith, prefix_of i.asset_in x.asset_in);
    out_felt = ground (arith, prefix_of i.asset_out x.asset_out);
    nonce_felt = ground (arith, prefix_of i.nonce x.nonce);
    amount_commitment = ground (arith, prefix_of i.nonce x.nonce);
    id = ground (
      arith,
      prefix_of i.user_address x.user,
      prefix_of i.asset_in x.asset_in,
      prefix_of i.asset_out x.asset_out,
      prefix_of i.nonce x.nonce,
    );
  }

  create_commitment-hash :
      (now : ℕ) (i : Intent) (k : IntentCommitment)
      → IsPrinted f
      → IsHexIntent i
      → IsBuilt now i
      → create_commitment f i ≡ SdkResult.ok k
      → k.intent_hash ≡ f.to_hex (hash_of i)
  unfolding create_commitment Builder.compute_amount_commitment Builder.compute_intent_hash
      felt_from_hex intent_hash_of
  create_commitment-hash now i k printed x built h =
      let amount_hash = f.to_hex (f.pedersen_hash i.amount (value i.nonce)) in
      let printed_prefix = prefix_of amount_hash (printed.is_felt i.amount (value i.nonce)) in
      let reads = printed.reads_back i.amount (value i.nonce) in
      ground (
        arith,
        prefix_of i.user_address x.user,
        prefix_of i.asset_in x.asset_in,
        prefix_of i.asset_out x.asset_out,
        prefix_of i.nonce x.nonce,
        printed_prefix,
        reads,
      )

-- The hashes that the gateway computes of the fields of an intent and of the privacy mode of its
-- commitment are the numbers whose texts the client has written.
pub record Agrees (env : Env) (to_hex : ℕ → Text) (i : Intent) (k : IntentCommitment) : Type 0 where
  pub amount_hash : ℕ
  pub intent_hash : ℕ
  pub intent_id : ℕ
  pub same_amount :
      compute_amount_commitment env.felt_from_hex env.pedersen_hash i.amount i.nonce
      ≡ Result.ok amount_hash
  pub same_hash :
      compute_intent_hash env.felt_from_hex env.pedersen_hash i.user_address i.asset_in i.asset_out
        amount_hash i.min_output i.max_fee_bps i.deadline k.privacy_mode i.nonce
      ≡ Result.ok intent_hash
  pub same_id :
      compute_intent_id env.felt_from_hex env.pedersen_hash i.user_address i.nonce intent_hash
      ≡ Result.ok intent_id
  pub written_amount : i.amount_commitment ≡ to_hex amount_hash
  pub written_hash : k.intent_hash ≡ to_hex intent_hash
  pub written_id : i.intent_id ≡ to_hex intent_id

module _ (env : Env) (to_hex : ℕ → Text) where
  abbrev f : Felts
  f = felts_of env to_hex

  -- What the gateway reads of a field element.
  reads :
      (s : Text) (n : ℕ)
      → is_hex_felt s ≡ true
      → env.felt_from_hex s ≡ some n
      → field_element_from_hex env.felt_from_hex s ≡ Result.ok n
  unfolding field_element_from_hex
  reads s n h e = ground (arith, prefix_of f s h)

  Agrees-IsBuilt :
      (now : ℕ) (i : Intent) (k : IntentCommitment)
      → IsHexIntent i
      → IsBuilt f now i
      → k.intent_hash ≡ to_hex (hash_of f i)
      → k.privacy_mode ≡ as_u8 i.privacy_mode
      → Agrees env to_hex i k
  unfolding compute_amount_commitment compute_intent_hash compute_intent_id
  Agrees-IsBuilt now i k x built hash mode =
      let v = value f in
      let user = reads i.user_address (v i.user_address) x.user built.user_felt in
      let asset_in = reads i.asset_in (v i.asset_in) x.asset_in built.in_felt in
      let asset_out = reads i.asset_out (v i.asset_out) x.asset_out built.out_felt in
      let nonce = reads i.nonce (v i.nonce) x.nonce built.nonce_felt in
      record {
        amount_hash = env.pedersen_hash i.amount (v i.nonce);
        intent_hash = hash_of f i;
        intent_id =
            env.pedersen_hash (env.pedersen_hash (v i.user_address) (v i.nonce)) (hash_of f i);
        same_amount = ground (arith, nonce);
        same_hash = ground (arith, user, asset_in, asset_out, nonce, mode);
        same_id = ground (arith, user, nonce);
        written_amount = built.amount_commitment;
        written_hash = hash;
        written_id = built.id;
      }

create_commitment-mode :
    (f : Felts) (i : Intent) (k : IntentCommitment)
    → create_commitment f i ≡ SdkResult.ok k
    → k.privacy_mode ≡ as_u8 i.privacy_mode
unfolding create_commitment
create_commitment-mode f i k h = ground arith

-- An intent that the client's builder has made, whose user, assets and nonce are felts, and the
-- commitment that the client makes of it carry the hashes that the gateway computes: of the amount and
-- the nonce, of the intent's fields with the privacy mode of the commitment, and the id of the user,
-- the nonce and that hash. The client's field elements and hash are the gateway's, and a printed hash
-- is a felt that reads back.
pub create_commitment-build :
    (env : Env) (to_hex : ℕ → Text) (now : ℕ) (generated : Text) (b : IntentBuilder) (i : Intent)
    (k : IntentCommitment)
    → IsPrinted (felts_of env to_hex)
    → build (felts_of env to_hex) now generated b ≡ SdkResult.ok i
    → IsHexIntent i
    → create_commitment (felts_of env to_hex) i ≡ SdkResult.ok k
    → Agrees env to_hex i k
create_commitment-build env to_hex now generated b i k printed h x c =
    let f = felts_of env to_hex in
    let built = build-IsBuilt f now generated b i h x in
    Agrees-IsBuilt env to_hex now i k x built (create_commitment-hash f now i k printed x built c)
      (create_commitment-mode f i k c)
