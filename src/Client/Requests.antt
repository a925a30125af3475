-- ===== src/Client/Requests.antt =====
-- client-sdk/src/gateway_client.rs. The checks of header texts and the building of the HTTP client are
-- those of the crates http and reqwest; `server n` answers the request of number n, `draw n j` is the
-- number from 0 to j that is drawn before the wait after it. A request without a stream can be cloned.
pub mod Retries
use blindmarkets.Base.{
  ℕ, zero, suc, ◌+◌, ◌-◌, ◌*◌, ◌^◌, Bool, true, false, not, ◌&&◌, ◌||◌, List, [], ◌∷◌, ◌++◌, Option,
  none, some, Text, codes, length, is_empty, ltb, leb, ◌==◌, to_decimal, if◌then◌else◌,
}
use blindmarkets.Http.{Reply, no_reply, reply, is_success, is_server_error}
use blindmarkets.Settings.{is_http, is_blank}
use blindmarkets.Gateway.Types.{SubmitIntentRequest, OnchainLifecycleRequest}

pub record GatewayClientConfig : Type 0 where
  pub base_url : Text
  pub api_key_header : Text
  pub api_key : Text
  pub timeout_seconds : ℕ
  pub max_retries : ℕ  -- u32
  pub retry_base_delay_ms : ℕ  -- u64, as the others
  pub retry_max_delay_ms : ℕ
  pub retry_jitter_ms : ℕ

-- The header and the timeout are those that the HTTP client keeps.
pub record GatewayClient : Type 0 where
  pub base_url : Text
  pub header_name : Text
  pub header_value : Text
  pub timeout_seconds : ℕ
  pub max_retries : ℕ
  pub retry_base_delay_ms : ℕ
  pub retry_max_delay_ms : ℕ
  pub retry_jitter_ms : ℕ

pub data ClientError : Type 0 where
  empty_base_url bad_base_url empty_api_key_header empty_api_key : ClientError
  zero_timeout zero_base_delay zero_max_delay : ClientError
  invalid_api_key_header invalid_api_key client_build_failed : ClientError
  request_failed response_parsing_failed out_of_fuel : ClientError
  gateway_error : (status : ℕ) (body : Text) → ClientError

pub data ClientResult {ℓ} (A : Type ℓ) : Type ℓ where
  ok : A → ClientResult A
  err : ClientError → ClientResult A

infixl 5 ◌>>◌
abbrev ◌>>◌ {ℓ} : {B : Type ℓ} → ClientResult (Unit {0}) → ClientResult B → ClientResult B
ok _ >> n = n
err e >> n = err e

abbrev refuse_if : Bool → ClientError → ClientResult (Unit {0})
refuse_if b e = if b then err e else ok tt

pub record HttpCrates : Type 0 where
  pub is_header_name : Text → Bool
  pub is_header_value : Text → Bool
  pub can_build : Bool

unfoldable pub new : HttpCrates → GatewayClientConfig → ClientResult GatewayClient
new h c = do
  refuse_if (is_blank c.base_url) empty_base_url
  refuse_if (not (is_http c.base_url)) bad_base_url
  refuse_if (is_blank c.api_key_header) empty_api_key_header
  refuse_if (is_blank c.api_key) empty_api_key
  refuse_if (c.timeout_seconds == 0) zero_timeout
  refuse_if (c.retry_base_delay_ms == 0) zero_base_delay
  refuse_if (c.retry_max_delay_ms == 0) zero_max_delay
  refuse_if (not (h.is_header_name c.api_key_header)) invalid_api_key_header
  refuse_if (not (h.is_header_value c.api_key)) invalid_api_key
  refuse_if (not h.can_build) client_build_failed
  ok (record {
    base_url = c.base_url;
    header_name = c.api_key_header;
    header_value = c.api_key;
    timeout_seconds = c.timeout_seconds;
    max_retries = c.max_retries;
    retry_base_delay_ms = c.retry_base_delay_ms;
    retry_max_delay_ms = c.retry_max_delay_ms;
    retry_jitter_ms = c.retry_jitter_ms;
  })

pub data Body : Type 0 where
  no_body : Body
  submit_body : SubmitIntentRequest → Body
  cancel_body : (user_address : Text) (signature : List Text) → Body
  onchain_body : OnchainLifecycleRequest → Body

pub record ClientRequest : Type 0 where
  pub is_post : Bool
  pub url : Text
  pub query : List (Text × Text)
  pub body : Body

-- The requests made, the newest first, and the milliseconds slept.
pub record Trace : Type 0 where
  pub requests : List ClientRequest
  pub slept : ℕ

abbrev pub min : ℕ → ℕ → ℕ
min a b = if leb a b then a else b

-- `saturating_*` on u64
abbrev pub saturate : ℕ → ℕ
saturate n = min n (2 ^ 64 - 1)

unfoldable pub compute_backoff : (ℕ → ℕ) → GatewayClient → ℕ → ℕ
compute_backoff draw c attempt =
    let base = saturate (c.retry_base_delay_ms * saturate (2 ^ attempt)) in
    let capped = min base c.retry_max_delay_ms in
    let jitter = if ltb 0 c.retry_jitter_ms then draw c.retry_jitter_ms else 0 in
    saturate (capped + jitter)

abbrev pub is_retryable_status : ℕ → Bool
is_retryable_status status = (status == 429) || is_server_error status

abbrev pub send : ClientRequest → Trace → Trace
send r t = record t { requests = r ∷ t.requests }

abbrev pub sleep : ℕ → Trace → Trace
sleep ms t = record t { slept = t.slept + ms }

module _ (server : ℕ → ClientRequest → Reply) (draw : ℕ → ℕ → ℕ) (c : GatewayClient) where
  -- The loop, from an attempt's number on.
  unfoldable pub try_send : ℕ → ℕ → ClientRequest → Trace → ClientResult Text × Trace
  unfolding compute_backoff
  try_send zero attempt r t = (err out_of_fuel, t)
  try_send (suc fuel) attempt r t =
      let sent = send r t in
      let delay = compute_backoff (draw (length t.requests)) c attempt in
      let again = try_send fuel (suc attempt) r (sleep delay sent) in
      elim (server (length t.requests) r) [
        | no_reply ↦ if ltb attempt c.max_retries then again else (err request_failed, sent)
        | reply status body ↦
            if is_success status
            then (ok body, sent)
            else if is_retryable_status status && ltb attempt c.max_retries
            then again
            else (err (gateway_error status body), sent)
      ]

  unfoldable pub send_with_retry : ClientRequest → Trace → ClientResult Text × Trace
  unfolding try_send
  send_with_retry r t = try_send (suc c.max_retries) 0 r t
