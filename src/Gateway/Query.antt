-- ===== src/Gateway/Query.antt =====
-- The handlers of backend/gateway/src/api.rs that only read. The rows of `ORDER BY created_at DESC`
-- are those of the table, newest first. `upper` is Unicode's table of uppercase letters.
pub mod Listings
use mathlib.Core.List.{reverse, flat_map}
use blindmarkets.Base.{
  ℕ, ◌%◌, ◌^◌, Bool, true, not, ◌&&◌, ◌||◌, List, [], ◌∷◌, map, Option, none, some, unwrap_or, Text,
  codes, text_eq, any, all, is_ascii_digit, retain, count_where, take, drop, ltb, ◌==◌,
}
use blindmarkets.Gateway.Types.{
  IntentStatus, pending, auction, settled, canceled, onchain_failed, awaiting_onchain, BatchStatus,
  Intent, Batch, is_open, is_pending, not_found, internal_server_error,
}
use blindmarkets.Gateway.Exec.{
  Result, Exec, pure, ◌>>=◌, ◌>>◌, checked, or_fail, aborted, query, ◌then_check◌,
}
use blindmarkets.Gateway.Table.{find_intent}
use blindmarkets.Gateway.Clock.{compute_current_batch_id}
use blindmarkets.Gateway.Crypto.{public_key_from_private}
use blindmarkets.Gateway.Auth.{require_api_key}
use blindmarkets.Gateway.RateLimit.{check_ip_limit}
use blindmarkets.Gateway.Hex.{is_hex_felt}
use blindmarkets.Gateway.Validate.{refuse_if}
use blindmarkets.Gateway.Env.{Env, Call}

-- The texts of the column `status`.
unfoldable pub status_text : IntentStatus → Text
status_text pending = codes "PENDING"
status_text auction = codes "AUCTION"
status_text settled = codes "SETTLED"
status_text canceled = codes "CANCELED"
status_text onchain_failed = codes "ONCHAIN_FAILED"
status_text awaiting_onchain = codes "AWAITING_ONCHAIN"

unfoldable pub batch_status_text : BatchStatus → Text
batch_status_text BatchStatus.forming = codes "FORMING"
batch_status_text BatchStatus.auction = codes "AUCTION"
batch_status_text BatchStatus.settled = codes "SETTLED"
batch_status_text BatchStatus.failed = codes "FAILED"

abbrev known_statuses : List Text
known_statuses =
    codes "PENDING"
    ∷ codes "AUCTION"
    ∷ codes "SETTLED"
    ∷ codes "CANCELED"
    ∷ codes "ONCHAIN_FAILED"
    ∷ codes "AWAITING_ONCHAIN"
    ∷ []

abbrev known_batch_statuses : List Text
known_batch_statuses = codes "FORMING" ∷ codes "AUCTION" ∷ codes "SETTLED" ∷ codes "FAILED" ∷ []

-- A filter that is not given lets everything through.
abbrev matches : Option Text → (Text → Bool) → Bool
matches none p = true
matches (some s) p = p s

pub record ListIntentsQuery : Type 0 where
  pub user_address : Option Text
  pub status : Option Text
  pub batch_id : Option Text
  pub limit : Option ℕ
  pub offset : Option ℕ

-- LIMIT and OFFSET
unfoldable pub page {ℓ} : {A : Type ℓ} → ℕ → ℕ → List A → List A
page limit offset rows = take limit (drop offset rows)

unfoldable pub check_limit : Env → ℕ → Result (Unit {0})
check_limit env limit = refuse_if (limit == 0 || ltb env.config.max_page_size limit)

module _ (upper : ℕ → Text) where
  -- `to_uppercase`
  abbrev to_uppercase : Text → Text
  to_uppercase s = flat_map upper s

  unfoldable pub check_filters : ListIntentsQuery → Result (Unit {0})
  check_filters q =
      refuse_if (not (matches q.user_address is_hex_felt))
      then_check refuse_if
          (not (matches q.status (λ s. any (text_eq (to_uppercase s)) known_statuses)))
      then_check refuse_if (not (matches q.batch_id (all is_ascii_digit)))

  unfoldable pub selects : ListIntentsQuery → Intent → Bool
  selects q row =
      matches q.user_address (λ u. text_eq row.user_address u)
      && matches q.status (λ s. text_eq (status_text row.status) (to_uppercase s))
      && matches q.batch_id (λ b. text_eq row.batch_id b)

  unfoldable pub list_intents : Env → Call → ListIntentsQuery → Exec (List Intent × ℕ × ℕ)
  unfolding check_filters check_limit
  list_intents env call q = do
    checked (require_api_key call.headers env.config)
    check_ip_limit env.config call.client_ip
    checked (check_filters q)
    let limit = unwrap_or q.limit env.config.max_page_size
    checked (check_limit env limit)
    let offset = unwrap_or q.offset 0
    rows ← query (λ d. page limit offset (reverse (retain (selects q) d.intents)))
    pure (rows, limit, offset)

  unfoldable pub list_batches :
      (List Batch → List Batch)
      → Env
      → Call
      → Option Text
      → Option ℕ
      → Option ℕ
      → Exec (List Batch × ℕ × ℕ)
  unfolding check_limit
  list_batches by_close_time env call status limit_given offset_given = do
    checked (require_api_key call.headers env.config)
    check_ip_limit env.config call.client_ip
    checked (
        refuse_if (not (matches status (λ s. any (text_eq (to_uppercase s)) known_batch_statuses))))
    let limit = unwrap_or limit_given env.config.max_page_size
    checked (check_limit env limit)
    let offset = unwrap_or offset_given 0
    rows ← query (λ d. page limit offset (
        by_close_time (
          retain (λ b. matches status (λ s. text_eq (batch_status_text b.status) (to_uppercase s)))
            d.batches)))
    pure (rows, limit, offset)

unfoldable pub get_intent_status : Env → Call → Text → Exec (IntentStatus × Text)
get_intent_status env call intent_id = do
  checked (require_api_key call.headers env.config)
  check_ip_limit env.config call.client_ip
  found ← query (find_intent intent_id)
  row ← checked (or_fail found (aborted not_found))
  pure (row.status, row.batch_id)

-- The ids of the open intents of a batch, in the order of `sequence`.
unfoldable pub list_batch_intents : Env → Call → Text → Option ℕ → Option ℕ → Exec (List Text)
unfolding check_limit
list_batch_intents env call batch_id limit_given offset_given = do
  checked (require_api_key call.headers env.config)
  check_ip_limit env.config call.client_ip
  checked (refuse_if (not (all is_ascii_digit batch_id)))
  let limit = unwrap_or limit_given env.config.max_page_size
  checked (check_limit env limit)
  let offset = unwrap_or offset_given 0
  rows ← query (λ d.
      page limit offset
        (retain (λ row. text_eq row.batch_id batch_id && is_open row.status) d.intents))
  pure (map (λ row. row.intent_id) rows)

-- The number of pending intents of a batch, as a u32.
unfoldable pub get_pending_intents : Env → Call → Option Text → Exec (ℕ × Text)
get_pending_intents env call batch_id_given = do
  checked (require_api_key call.headers env.config)
  check_ip_limit env.config call.client_ip
  let batch_id = unwrap_or batch_id_given (
      compute_current_batch_id call.batch_clock env.config.genesis_timestamp
        env.config.batch_window_seconds)
  count ←
      query
        (λ d. count_where (λ row. is_pending row.status && text_eq row.batch_id batch_id) d.intents)
  pure (count % 2 ^ 32, batch_id)

unfoldable pub get_gateway_public_key : Env → Call → Exec Text
get_gateway_public_key env call = do
  checked (require_api_key call.headers env.config)
  check_ip_limit env.config call.client_ip
  checked (
      or_fail (public_key_from_private env.primitives env.config.gateway_private_key)
        (aborted internal_server_error))
