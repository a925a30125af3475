-- ===== src/Coordinator/Round/Reports.antt =====
-- What a round reports, and that the gateway takes what it is sent.
use blindmarkets.Base.{
  is_empty-to_decimal, ℕ, ◌+◌, ◌^◌, ◌<◌, ◌≡◌, Bool, true, false, not, ◌&&◌, List, [], ◌∷◌,
  if◌then◌else◌, to_decimal-all_digits, arith,
}
use blindmarkets.Gateway.Exec.{ok}
use blindmarkets.Gateway.Validate.{validate_close_batch_request}
use blindmarkets.Coordinator.Config.{CoordinatorConfig}
use blindmarkets.Coordinator.Schedule.{BatchScheduler}
use blindmarkets.Coordinator.Round.{
  Answers, Action, post_close, call_finalize_auction, post_failed, Clocks, close_notice, round,
}

abbrev pub is_report : Action → ℕ
is_report (post_failed b r) = 1
is_report _ = 0

abbrev pub is_finalize : Action → ℕ
is_finalize (call_finalize_auction b) = 1
is_finalize _ = 0

abbrev pub is_close : Action → ℕ
is_close (post_close p) = 1
is_close _ = 0

-- How often an action of a kind stands in a round.
abbrev pub tally : (Action → ℕ) → List Action → ℕ
tally p [] = 0
tally p (x ∷ xs) = p x + tally p xs

-- The reports that a round should make and makes: one where a client could not be made, two where
-- the contract's call failed.
abbrev pub expected_reports : Answers → ℕ
expected_reports a =
    if not a.create_client
    then 1
    else if not a.create_batch
    then 2
    else if not a.finalize_client
    then 1
    else if not a.finalize_auction
    then 2
    else 0

abbrev pub count_true : Bool → ℕ
count_true true = 1
count_true false = 0

-- A round tells the gateway of the closed batch exactly when the batch was created on the chain, and
-- asks for its auction's end exactly when it was created and the second client could be made. It
-- reports a failure exactly when some step failed: once where a client could not be made, and twice
-- where the call of the contract failed.
pub tally-round :
    (config : CoordinatorConfig) (s : BatchScheduler) (a : Answers) (clocks : Clocks)
    → let created = a.create_client && a.create_batch in
      (tally is_close (round config s a clocks) ≡ count_true created)
      × (tally is_finalize (round config s a clocks) ≡ count_true (created && a.finalize_client))
      × (tally is_report (round config s a clocks) ≡ expected_reports a)
unfolding round
tally-round config s a clocks = ground arith

-- What the coordinator posts for a closed batch passes the gateway's validation, for times between
-- the epoch and 2 ^ 63, and fewer than 2 ^ 31 intents.
pub validate_close_batch_request-close_notice :
    (config : CoordinatorConfig) (batch_id close_time count : ℕ)
    → 0 < close_time
    → close_time + config.auction_wait_seconds < 2 ^ 63
    → count < 2 ^ 31
    → validate_close_batch_request (close_notice config batch_id close_time count) ≡ ok tt
unfolding validate_close_batch_request close_notice
validate_close_batch_request-close_notice config batch_id close_time count positive small few =
    ground (arith, to_decimal-all_digits batch_id, is_empty-to_decimal batch_id)
