-- ===== src/Observer/Posting.antt =====
-- `post_gateway_json` of backend/observer/src/indexer.rs: what is posted to the gateway, and the
-- attempts to post it.
pub mod Retries
use blindmarkets.Base.{
  ℕ, zero, suc, ◌+◌, ◌^◌, Bool, true, false, not, ◌&&◌, List, [], ◌∷◌, Text, String, length, leb,
  ltb, ◌==◌, if◌then◌else◌,
}
use blindmarkets.Http.{Reply, no_reply, reply, is_success, is_client_error}
use blindmarkets.Gateway.Types.{SettleBatchRequest, FailedBatchRequest, OnchainLifecycleRequest}

-- The paths and payloads: POST /v1/batches/settled, /v1/batches/failed and /v1/intents/{id}/onchain.
pub data Message : Type 0 where
  batch_settled : SettleBatchRequest → Message
  batch_failed : FailedBatchRequest → Message
  intent_onchain : (intent_id : Text) → OnchainLifecycleRequest → Message

pub data PostResult : Type 0 where
  delivered transport_error rejected gave_up out_of_fuel : PostResult

-- The observer's side of the gateway: every request posted, the newest first, and the seconds slept.
pub record Desk : Type 0 where
  pub posted : List Message
  pub slept : ℕ

abbrev pub is_final : ℕ → Bool
is_final status = is_client_error status && not (status == 429)

abbrev pub send : Message → Desk → Desk
send m desk = record desk { posted = m ∷ desk.posted }

abbrev pub sleep : ℕ → Desk → Desk
sleep seconds desk = record desk { slept = desk.slept + seconds }

-- The loop. `gateway n` is the gateway's answer to the request of number n.
module _ (gateway : ℕ → Message → Reply) (m : Message) where
  unfoldable pub attempt : ℕ → ℕ → Desk → PostResult × Desk
  attempt zero attempts desk = (out_of_fuel, desk)
  attempt (suc fuel) attempts desk =
      let tried = suc attempts in
      let sent = send m desk in
      let again = attempt fuel tried (sleep (2 ^ tried) sent) in
      elim (gateway (length desk.posted) m) [
        | no_reply ↦ (transport_error, sent)
        | reply status body ↦
            if is_success status
            then (delivered, sent)
            else if is_final status
            then (rejected, sent)
            else if leb 5 tried
            then (gave_up, sent)
            else again
      ]

  unfoldable pub post_gateway_json : Desk → PostResult × Desk
  unfolding attempt
  post_gateway_json desk = attempt 5 0 desk
