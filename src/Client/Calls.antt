-- ===== src/Client/Calls.antt =====
-- The calls of client-sdk/src/gateway_client.rs, with the gateway's paths. `parse` reads the JSON text
-- of an answer.
use blindmarkets.Base.{
  ℕ, Bool, true, false, List, [], ◌∷◌, ◌++◌, Option, none, some, Text, codes, to_decimal,
}
use blindmarkets.Http.{Reply}
use blindmarkets.Gateway.Types.{SubmitIntentRequest, OnchainLifecycleRequest}
use blindmarkets.Client.Requests.{
  GatewayClient, ClientResult, ok, err, response_parsing_failed, Body, no_body, submit_body,
  cancel_body, onchain_body, ClientRequest, Trace, send_with_retry,
}

abbrev post : Text → Body → ClientRequest
post url body = record { is_post = true; url = url; query = []; body = body }

abbrev get : Text → ClientRequest
get url = record { is_post = false; url = url; query = []; body = no_body }

-- `request.query(..)`, where the argument is given
abbrev with_query : Text → Option Text → ClientRequest → ClientRequest
with_query name none r = r
with_query name (some value) r = record r { query = r.query ++ (name, value) ∷ [] }

abbrev number : Option ℕ → Option Text
number none = none
number (some n) = some (to_decimal n)

abbrev or_unparsed {ℓ} : {A : Type ℓ} → Option A → ClientResult A
or_unparsed none = err response_parsing_failed
or_unparsed (some a) = ok a

abbrev read_json {ℓ} : {A : Type ℓ} → (Text → Option A) → ClientResult Text → ClientResult A
read_json parse (ok body) = or_unparsed (parse body)
read_json parse (err e) = err e

abbrev without_answer : ClientResult Text → ClientResult (Unit {0})
without_answer (ok body) = ok tt
without_answer (err e) = err e

-- An answer that `send_with_retry` gives has a status of success.
abbrev is_healthy : ClientResult Text → ClientResult Bool
is_healthy (ok body) = ok true
is_healthy (err e) = err e

module _ (server : ℕ → ClientRequest → Reply) (draw : ℕ → ℕ → ℕ) (c : GatewayClient) where
  abbrev call_json {ℓ} :
      {A : Type ℓ} → (Text → Option A) → ClientRequest → Trace → ClientResult A × Trace
  call_json parse r t =
      let (answer, t) = send_with_retry server draw c r t in (read_json parse answer, t)

  abbrev call : ClientRequest → Trace → ClientResult (Unit {0}) × Trace
  call r t = let (answer, t) = send_with_retry server draw c r t in (without_answer answer, t)

  unfoldable submit_intent {ℓ} :
      {A : Type ℓ} → (Text → Option A) → SubmitIntentRequest → Trace → ClientResult A × Trace
  submit_intent parse request =
      call_json parse (post (c.base_url ++ codes "/v1/intents") (submit_body request))

  unfoldable get_intent_status {ℓ} :
      {A : Type ℓ} → (Text → Option A) → Text → Trace → ClientResult A × Trace
  get_intent_status parse intent_id =
      call_json parse (get (c.base_url ++ codes "/v1/intents/" ++ intent_id))

  unfoldable cancel_intent : Text → Text → List Text → Trace → ClientResult (Unit {0}) × Trace
  cancel_intent intent_id user_address signature = call (
      post (c.base_url ++ codes "/v1/intents/" ++ intent_id ++ codes "/cancel")
        (cancel_body user_address signature))

  unfoldable reconcile_onchain_intent :
      Text → OnchainLifecycleRequest → Trace → ClientResult (Unit {0}) × Trace
  reconcile_onchain_intent intent_id request = call (
      post (c.base_url ++ codes "/v1/intents/" ++ intent_id ++ codes "/onchain")
        (onchain_body request))

  unfoldable health_check : Trace → ClientResult Bool × Trace
  health_check t =
      let (answer, t) = send_with_retry server draw c (get (c.base_url ++ codes "/health")) t in
      (is_healthy answer, t)

  unfoldable get_pending_intents {ℓ} :
      {A : Type ℓ} → (Text → Option A) → Option Text → Trace → ClientResult A × Trace
  get_pending_intents parse batch_id =
      call_json parse
        (with_query (codes "batch_id") batch_id (get (c.base_url ++ codes "/v1/intents/pending")))

  unfoldable get_gateway_public_key {ℓ} :
      {A : Type ℓ} → (Text → Option A) → Trace → ClientResult A × Trace
  get_gateway_public_key parse =
      call_json parse (get (c.base_url ++ codes "/v1/gateway/public_key"))

  unfoldable list_intents {ℓ} :
      {A : Type ℓ}
      → (Text → Option A)
      → Option Text
      → Option Text
      → Option Text
      → Option ℕ
      → Option ℕ
      → Trace
      → ClientResult A × Trace
  list_intents parse user_address status batch_id limit offset =
      let r = get (c.base_url ++ codes "/v1/intents") in
      let r = with_query (codes "user_address") user_address r in
      let r = with_query (codes "status") status r in
      let r = with_query (codes "batch_id") batch_id r in
      let r = with_query (codes "limit") (number limit) r in
      call_json parse (with_query (codes "offset") (number offset) r)

  unfoldable list_batches {ℓ} :
      {A : Type ℓ}
      → (Text → Option A)
      → Option Text
      → Option ℕ
      → Option ℕ
      → Trace
      → ClientResult A × Trace
  list_batches parse status limit offset =
      let r = with_query (codes "status") status (get (c.base_url ++ codes "/v1/batches")) in
      let r = with_query (codes "limit") (number limit) r in
      call_json parse (with_query (codes "offset") (number offset) r)

  unfoldable list_batch_intents {ℓ} :
      {A : Type ℓ} → (Text → Option A) → Text → Option ℕ → Option ℕ → Trace → ClientResult A × Trace
  list_batch_intents parse batch_id limit offset =
      let r = get (c.base_url ++ codes "/v1/batches/" ++ batch_id ++ codes "/intents") in
      let r = with_query (codes "limit") (number limit) r in
      call_json parse (with_query (codes "offset") (number offset) r)
