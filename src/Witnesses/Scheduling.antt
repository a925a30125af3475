-- ===== src/Witnesses/Scheduling.antt =====
-- The theorems on the coordinator.
use blindmarkets.Base.{◌≡◌, ◌+◌, ◌≤◌, ◌<◌, ◌↔◌, true, false, ◌&&◌, codes, some, to_decimal, arith}
use blindmarkets.Gateway.Exec.{ok}
use blindmarkets.Gateway.Clock.{compute_current_batch_id}
use blindmarkets.Gateway.Validate.{validate_close_batch_request}
use blindmarkets.Coordinator.Config.{CoordinatorConfig}
use blindmarkets.Coordinator.Schedule.{
  BatchScheduler, compute_batch_id, closed_batch_at_timestamp, next_batch_close_time,
  time_until_next_batch,
}
use blindmarkets.Coordinator.Schedule.Windows.{
  closed_batch-compute_current_batch_id, closed_batch-next_batch_close_time,
}
use blindmarkets.Coordinator.Round.{Answers, body, Clocks, close_notice, round}
use blindmarkets.Coordinator.Round.Reports.{
  tally, is_close, is_finalize, is_report, count_true, expected_reports, tally-round,
  validate_close_batch_request-close_notice,
}

abbrev scheduler : BatchScheduler
scheduler = record { genesis_timestamp = 1700000000; batch_window_seconds = 60 }

abbrev settings : CoordinatorConfig
settings = record {
  gateway_url = codes "http://gateway";
  gateway_api_key_header = codes "x-api-key";
  gateway_api_key = codes "key";
  batch_window_seconds = 60;
  genesis_timestamp = 1700000000;
  auction_wait_seconds = 30;
  scheduler_tick_millis = 500;
}

-- The contract refuses to finalize the auction.
abbrev answers : Answers
answers = record {
  pending = body (some 3);
  create_client = true;
  create_batch = true;
  finalize_client = true;
  finalize_auction = false;
}

abbrev clocks : Clocks
clocks = record { head = 1700000070; wait = 1700000071; boundary = 1700000120 }

slept : 1700000071 + time_until_next_batch scheduler 1700000070 1700000071 ≤ 1700000121
unfolding time_until_next_batch next_batch_close_time
slept = omega arith

not_late : 1700000121 < next_batch_close_time scheduler 1700000070 + 60
unfolding next_batch_close_time
not_late = omega arith

closed_batch-compute_current_batch_id_example :
    let closed = closed_batch_at_timestamp scheduler 1700000121 in
    (closed.1 ≤ 1700000121)
    × ((compute_current_batch_id
            (some 1700000070)
            scheduler.genesis_timestamp
            scheduler.batch_window_seconds
          ≡ to_decimal closed.0)
        ↔ ((closed.1 ≤ 1700000070 + scheduler.batch_window_seconds) × (1700000070 < closed.1)))
closed_batch-compute_current_batch_id_example =
    closed_batch-compute_current_batch_id scheduler 1700000121 1700000070 (omega arith)
      (omega arith) (omega arith) (omega arith)

closed_batch-next_batch_close_time_example :
    closed_batch_at_timestamp scheduler 1700000121
    ≡ (compute_batch_id scheduler 1700000070, next_batch_close_time scheduler 1700000070)
closed_batch-next_batch_close_time_example =
    closed_batch-next_batch_close_time scheduler 1700000070 1700000071 1700000121 (omega arith)
      (omega arith) (omega arith) (omega arith) slept not_late

tally-round_example :
    let created = answers.create_client && answers.create_batch in
    (tally is_close (round settings scheduler answers clocks) ≡ count_true created)
    × (tally is_finalize (round settings scheduler answers clocks)
        ≡ count_true (created && answers.finalize_client))
    × (tally is_report (round settings scheduler answers clocks) ≡ expected_reports answers)
tally-round_example = tally-round settings scheduler answers clocks

validate_close_batch_request-close_notice_example :
    validate_close_batch_request (close_notice settings 1 1700000120 3) ≡ ok tt
validate_close_batch_request-close_notice_example =
    validate_close_batch_request-close_notice settings 1 1700000120 3 (omega arith) (omega arith)
      (omega arith)
