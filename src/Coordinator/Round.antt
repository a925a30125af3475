-- ===== src/Coordinator/Round.antt =====
-- One round of `run_scheduler` of backend/coordinator/src/batch_scheduler.rs, with `form_batch`,
-- `trigger_auction`, `notify_gateway_batch_closed` and `report_batch_failure`. What the gateway and
-- the chain answer is an argument; a round is the list of what it does, in order.
pub mod Reports
use blindmarkets.Base.{
  ℕ, ◌+◌, ◌-◌, ◌%◌, ◌^◌, Bool, true, false, List, [], ◌∷◌, ◌++◌, Option, none, some, unwrap_or,
  Text, codes, to_decimal, ℤ, pos, negsuc, ltb, leb, if◌then◌else◌,
}
use blindmarkets.Gateway.Types.{CloseBatchRequest}
use blindmarkets.Coordinator.Config.{CoordinatorConfig}
use blindmarkets.Coordinator.Schedule.{
  BatchScheduler, closed_batch_at_timestamp, time_until_next_batch,
}

-- The reply to GET /v1/intents/pending: no reply, an error status, or a body whose `count`, where
-- it is a u64, is given.
pub data PendingReply : Type 0 where
  unreachable refused : PendingReply
  body : Option ℕ → PendingReply

-- `from_env` and `new` of the client make it or fail; each call of the contract succeeds or fails.
pub record Answers : Type 0 where
  pub pending : PendingReply
  pub create_client : Bool
  pub create_batch : Bool
  pub finalize_client : Bool
  pub finalize_auction : Bool

pub data Reason : Type 0 where
  create_batch_failed batch_formation_failed finalize_auction_failed : Reason
  auction_finalize_failed : Reason

pub data Action : Type 0 where
  sleep_seconds sleep_millis : ℕ → Action
  query_pending : Text → Action
  call_create_batch : (batch_id close_time intent_count : ℕ) → Action
  -- POST /v1/batches/close
  post_close : CloseBatchRequest → Action
  call_finalize_auction : ℕ → Action
  query_winning_solver : ℕ → Action
  -- POST /v1/batches/failed
  post_failed : Text → Reason → Action

-- `as u32`, `as i64` and `as i32`
unfoldable pub pending_count : PendingReply → ℕ
pending_count unreachable = 0
pending_count refused = 0
pending_count (body count) = unwrap_or count 0 % 2 ^ 32

unfoldable pub as_signed : ℕ → ℕ → ℤ
as_signed bits n =
    let m = n % 2 ^ bits in if ltb m (2 ^ (bits - 1)) then pos m else negsuc (2 ^ bits - m - 1)

abbrev saturating_add_u64 : ℕ → ℕ → ℕ
saturating_add_u64 a b = if ltb (a + b) (2 ^ 64) then a + b else 2 ^ 64 - 1

unfoldable pub close_notice : CoordinatorConfig → ℕ → ℕ → ℕ → CloseBatchRequest
unfolding as_signed
close_notice config batch_id close_time intent_count = record {
  batch_id = to_decimal batch_id;
  close_time = as_signed 64 close_time;
  intent_count = as_signed 32 intent_count;
  auction_deadline = as_signed 64 (saturating_add_u64 close_time config.auction_wait_seconds);
}

abbrev report : ℕ → Reason → Action
report batch_id reason = post_failed (to_decimal batch_id) reason

-- What `form_batch` does, and whether it returns Ok.
unfoldable pub form_batch : CoordinatorConfig → Answers → ℕ → ℕ → List Action × Bool
unfolding pending_count close_notice
form_batch config a batch_id close_time =
    let count = pending_count a.pending in
    let asked = query_pending (to_decimal batch_id) in
    if a.create_client
    then if a.create_batch
      then (
        asked
            ∷ call_create_batch batch_id close_time count
            ∷ post_close (close_notice config batch_id close_time count)
            ∷ [],
        true,
      )
      else (
        asked
            ∷ call_create_batch batch_id close_time count
            ∷ report batch_id create_batch_failed
            ∷ [],
        false,
      )
    else (asked ∷ [], false)

-- What `trigger_auction` does, and whether it returns Ok.
unfoldable pub trigger_auction : CoordinatorConfig → Answers → ℕ → List Action × Bool
trigger_auction config a batch_id =
    let waited = sleep_seconds config.auction_wait_seconds in
    if a.finalize_client
    then if a.finalize_auction
      then (waited ∷ call_finalize_auction batch_id ∷ query_winning_solver batch_id ∷ [], true)
      else (
        waited ∷ call_finalize_auction batch_id ∷ report batch_id finalize_auction_failed ∷ [],
        false,
      )
    else (waited ∷ [], false)

abbrev after_auction : ℕ → List Action × Bool → List Action
after_auction batch_id (done, true) = done
after_auction batch_id (done, false) = done ++ report batch_id auction_finalize_failed ∷ []

unfoldable pub after_forming : CoordinatorConfig → Answers → ℕ → List Action × Bool → List Action
unfolding trigger_auction
after_forming config a batch_id (done, true) =
    done ++ after_auction batch_id (trigger_auction config a batch_id)
after_forming config a batch_id (done, false) = done ++ report batch_id batch_formation_failed ∷ []

-- The clock at the head of the round, at the computation of the wait, and after the wait.
pub record Clocks : Type 0 where
  pub head : ℕ
  pub wait : ℕ
  pub boundary : ℕ

abbrev pause : ℕ → List Action
pause seconds = if ltb 0 seconds then sleep_seconds seconds ∷ [] else []

unfoldable pub round : CoordinatorConfig → BatchScheduler → Answers → Clocks → List Action
unfolding form_batch after_forming
round config s a clocks =
    let (batch_id, close_time) = closed_batch_at_timestamp s clocks.boundary in
    pause (time_until_next_batch s clocks.head clocks.wait)
    ++ after_forming config a batch_id (form_batch config a batch_id close_time)
    ++ sleep_millis config.scheduler_tick_millis ∷ []
