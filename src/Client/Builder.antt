-- ===== src/Client/Builder.antt =====
-- client-sdk/src/intent_builder.rs, and the types of client-sdk/src/lib.rs that it makes. A field
-- element is its number; the reading and printing of field elements and the Pedersen hash are those
-- of the crate starknet-crypto, parameters here. A u128 is below the field's prime.
pub mod Agreement
use blindmarkets.Base.{
  ℕ, ◌+◌, ◌%◌, ◌^◌, Bool, Option, none, some, unwrap_or, Text, String, codes, ◌++◌, starts_with,
  text_eq, ltb, leb, ◌==◌, if◌then◌else◌,
}

pub data PrivacyMode : Type 0 where
  public hidden_amount hidden_direction_and_amount : PrivacyMode

-- `mode as u8`
unfoldable pub as_u8 : PrivacyMode → ℕ
as_u8 public = 0
as_u8 hidden_amount = 1
as_u8 hidden_direction_and_amount = 2

pub record Intent : Type 0 where
  pub intent_id : Text
  pub user_address : Text
  pub asset_in : Text
  pub asset_out : Text
  pub amount : ℕ  -- u128
  pub amount_commitment : Text
  pub min_output : ℕ  -- u128
  pub max_fee_bps : ℕ  -- u16
  pub deadline : ℕ  -- u64
  pub privacy_mode : PrivacyMode
  pub nonce : Text

pub record IntentCommitment : Type 0 where
  pub intent_id : Text
  pub user_address : Text
  pub intent_hash : Text
  pub amount_commitment : Text
  pub min_output_commitment : Text
  pub max_fee_bps : ℕ
  pub deadline : ℕ
  pub privacy_mode : ℕ
  pub nonce : Text

-- The error texts of `SdkError::InvalidIntent`.
pub data SdkError : Type 0 where
  required not_positive : String → SdkError
  fee_too_high deadline_passed same_assets invalid_felt : SdkError

pub data SdkResult {ℓ} (A : Type ℓ) : Type ℓ where
  ok : A → SdkResult A
  err : SdkError → SdkResult A

infixl 5 ◌>>=◌ ◌>>◌
abbrev pub ◌>>=◌ {ℓ κ} : {A : Type ℓ} {B : Type κ} → SdkResult A → (A → SdkResult B) → SdkResult B
ok a >>= f = f a
err e >>= f = err e

abbrev pub ◌>>◌ {ℓ} : {B : Type ℓ} → SdkResult (Unit {0}) → SdkResult B → SdkResult B
m >> n = m >>= λ _. n

abbrev ok_or {ℓ} : {A : Type ℓ} → Option A → SdkError → SdkResult A
ok_or none e = err e
ok_or (some a) e = ok a

abbrev refuse_if : Bool → SdkError → SdkResult (Unit {0})
refuse_if b e = if b then err e else ok tt

pub record IntentBuilder : Type 0 where
  pub user_address : Option Text
  pub asset_in : Option Text
  pub asset_out : Option Text
  pub amount : Option ℕ
  pub min_output : Option ℕ
  pub max_fee_bps : Option ℕ
  pub deadline : Option ℕ
  pub nonce : Option Text
  pub privacy_mode : PrivacyMode

unfoldable pub new : IntentBuilder
new = record {
  user_address = none;
  asset_in = none;
  asset_out = none;
  amount = none;
  min_output = none;
  max_fee_bps = none;
  deadline = none;
  nonce = none;
  privacy_mode = public;
}

-- The setters, each named after its field.
unfoldable pub set_user_address : Text → IntentBuilder → IntentBuilder
set_user_address address b = record b { user_address = some address }

unfoldable pub set_asset_in : Text → IntentBuilder → IntentBuilder
set_asset_in asset b = record b { asset_in = some asset }

unfoldable pub set_asset_out : Text → IntentBuilder → IntentBuilder
set_asset_out asset b = record b { asset_out = some asset }

unfoldable pub set_amount : ℕ → IntentBuilder → IntentBuilder
set_amount amount b = record b { amount = some amount }

unfoldable pub set_min_output : ℕ → IntentBuilder → IntentBuilder
set_min_output min_output b = record b { min_output = some min_output }

unfoldable pub set_max_fee_bps : ℕ → IntentBuilder → IntentBuilder
set_max_fee_bps max_fee_bps b = record b { max_fee_bps = some max_fee_bps }

-- `now` is the clock's reading; a u64 sum wraps.
unfoldable pub deadline_seconds : ℕ → ℕ → IntentBuilder → IntentBuilder
deadline_seconds now seconds_from_now b = record b {
  deadline = some ((now + seconds_from_now) % 2 ^ 64);
}

unfoldable pub deadline_timestamp : ℕ → IntentBuilder → IntentBuilder
deadline_timestamp timestamp b = record b { deadline = some timestamp }

unfoldable pub set_nonce : Text → IntentBuilder → IntentBuilder
set_nonce nonce b = record b { nonce = some nonce }

unfoldable pub set_privacy_mode : PrivacyMode → IntentBuilder → IntentBuilder
set_privacy_mode mode b = record b { privacy_mode = mode }

pub record Felts : Type 0 where
  pub from_hex_be : Text → Option ℕ
  pub to_hex : ℕ → Text
  pub pedersen_hash : ℕ → ℕ → ℕ

module _ (f : Felts) where
  unfoldable pub felt_from_hex : Text → SdkResult ℕ
  felt_from_hex value =
      let normalized = if starts_with value (codes "0x") then value else codes "0x" ++ value in
      ok_or (f.from_hex_be normalized) invalid_felt

  unfoldable pub compute_amount_commitment : ℕ → ℕ → ℕ
  compute_amount_commitment amount nonce = f.pedersen_hash amount nonce

  unfoldable pub compute_intent_hash :
      Text → Text → Text → ℕ → ℕ → ℕ → ℕ → PrivacyMode → ℕ → SdkResult ℕ
  unfolding felt_from_hex as_u8
  compute_intent_hash user_address asset_in asset_out amount_commitment min_output max_fee_bps
        deadline privacy_mode nonce =
      do
        user ← felt_from_hex user_address
        asset_in_felt ← felt_from_hex asset_in
        asset_out_felt ← felt_from_hex asset_out
        let hash = f.pedersen_hash user asset_in_felt
        let hash = f.pedersen_hash hash asset_out_felt
        let hash = f.pedersen_hash hash amount_commitment
        let min_output_hash = f.pedersen_hash min_output 0
        let hash = f.pedersen_hash hash min_output_hash
        let hash = f.pedersen_hash hash max_fee_bps
        let hash = f.pedersen_hash hash deadline
        let hash = f.pedersen_hash hash (as_u8 privacy_mode)
        ok (f.pedersen_hash hash nonce)

  unfoldable pub compute_intent_id : Text → ℕ → ℕ → SdkResult Text
  unfolding felt_from_hex
  compute_intent_id user_address nonce intent_hash = do
    user ← felt_from_hex user_address
    ok (f.to_hex (f.pedersen_hash (f.pedersen_hash user nonce) intent_hash))

  -- `now` is the clock's reading, `generated` what `generate_nonce` draws.
  unfoldable pub build : ℕ → Text → IntentBuilder → SdkResult Intent
  unfolding felt_from_hex compute_amount_commitment compute_intent_hash compute_intent_id
  build now generated b = do
    user_address ← ok_or b.user_address (required "user_address")
    asset_in ← ok_or b.asset_in (required "asset_in")
    asset_out ← ok_or b.asset_out (required "asset_out")
    amount ← ok_or b.amount (required "amount")
    min_output ← ok_or b.min_output (required "min_output")
    max_fee_bps ← ok_or b.max_fee_bps (required "max_fee_bps")
    deadline ← ok_or b.deadline (required "deadline")
    refuse_if (amount == 0) (not_positive "amount")
    refuse_if (min_output == 0) (not_positive "min_output")
    refuse_if (ltb 10000 max_fee_bps) fee_too_high
    refuse_if (leb deadline now) deadline_passed
    refuse_if (text_eq asset_in asset_out) same_assets
    let nonce = unwrap_or b.nonce generated
    nonce_felt ← felt_from_hex nonce
    let amount_commitment = compute_amount_commitment amount nonce_felt
    intent_hash ←
        compute_intent_hash user_address asset_in asset_out amount_commitment min_output max_fee_bps
          deadline b.privacy_mode nonce_felt
    intent_id ← compute_intent_id user_address nonce_felt intent_hash
    ok (record {
      intent_id = intent_id;
      user_address = user_address;
      asset_in = asset_in;
      asset_out = asset_out;
      amount = amount;
      amount_commitment = f.to_hex amount_commitment;
      min_output = min_output;
      max_fee_bps = max_fee_bps;
      deadline = deadline;
      privacy_mode = b.privacy_mode;
      nonce = nonce;
    })

  unfoldable pub create_commitment : Intent → SdkResult IntentCommitment
  unfolding felt_from_hex compute_amount_commitment compute_intent_hash
  create_commitment intent = do
    nonce_felt ← felt_from_hex intent.nonce
    amount_commitment ← felt_from_hex intent.amount_commitment
    let min_output_commitment = compute_amount_commitment intent.min_output nonce_felt
    intent_hash ←
        compute_intent_hash intent.user_address intent.asset_in intent.asset_out amount_commitment
          intent.min_output intent.max_fee_bps intent.deadline intent.privacy_mode nonce_felt
    ok (record {
      intent_id = intent.intent_id;
      user_address = intent.user_address;
      intent_hash = f.to_hex intent_hash;
      amount_commitment = f.to_hex amount_commitment;
      min_output_commitment = f.to_hex min_output_commitment;
      max_fee_bps = intent.max_fee_bps;
      deadline = intent.deadline;
      privacy_mode = as_u8 intent.privacy_mode;
      nonce = intent.nonce;
    })
