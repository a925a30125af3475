-- ===== src/Witnesses/Trading.antt =====
-- The theorems on cancels, reports of the chain and batches, where one intent is stored.
use blindmarkets.Base.{
  parse_unsigned, from_decimal, all, is_ascii_digit, ◌≡◌, ◌+◌, ◌-◌, refl, ◌⊎◌, false, codes,
  count_where, length,
}
use blindmarkets.Gateway.Types.{Db}
use blindmarkets.Gateway.Exec.{Failure, ok, err}
use blindmarkets.Gateway.Exec.Rules.{Atomic}
use blindmarkets.Base.{
  update_where, is_ascii_digit, is_ascii_hexdigit, to_ascii_uppercase, trim, to_decimal, to_hex,
  any, all, retain, text_eq, len, starts_with, find_where, eq_ignore_ascii_case, count_where,
}
use blindmarkets.Gateway.Exec.{
  ◌>>=◌, pure, execute, execute_rows, get_db, modify_db, round_trip, transaction, attempt, send,
  modify_metrics, fail, count_rejections, query,
}
use blindmarkets.Gateway.Auth.{require_api_key}
use blindmarkets.Gateway.Validate.{normalize, validate_settle_batch_request}
use blindmarkets.Gateway.Hex.{is_hex_bytes, is_hex_felt}
use blindmarkets.Gateway.RateLimit.{check_ip_limit, check_rate_limit, count_of, incr, expire}
use blindmarkets.Gateway.Clock.{batch_number, compute_current_batch_id}
use blindmarkets.Gateway.Crypto.{decode_key_32, decrypt_from_client, trim_hex_prefix}
use blindmarkets.Json.{deserialize_u128, deserialize_u64}
use blindmarkets.Gateway.Env.{decipher, parse_intent}
use blindmarkets.Gateway.Table.{
  release_pending, update_intents, open_auction, mark_settled, sum_amounts, release_group,
  release_settled,
}
use blindmarkets.Gateway.Types.{as_db_value}
use blindmarkets.Gateway.Cancel.{cancel_intent}
use blindmarkets.Gateway.Batches.{
  start_auction, requeue, settle_intents, close_batch, fail_batch, release_intent, release_intents,
  settle_tables, settle_batch,
}
use blindmarkets.Gateway.Table.{pending_of, balance, in_group}
use blindmarkets.Gateway.Reconcile.{reconcile_onchain_intent}
use blindmarkets.Gateway.Reconcile.Outcome.{Reconciled, reconcile_onchain_intent_lem}
use blindmarkets.Gateway.Batches.{in_open_batch}
use blindmarkets.Gateway.Lifecycle.Atomicity.{handlers-Atomic}
use blindmarkets.Gateway.Batches.Outcome.{close_batch_lem, Released, settle_batch-ok}
use blindmarkets.Gateway.Batches.Requeue.{pending_in, requeue-start_auction}
use blindmarkets.Gateway.Batches.Release.{
  Opens, AllOpen, none_open, one_open, open_in, settle_batch_released,
}
use blindmarkets.Witnesses.Data.{
  env, call, request, row, plain, plaintext, held_db, held_world, cancel_request, commit_report,
  close_request, settle_request, failed_request,
}

row-Opens : Opens env row
unfolding decipher parse_intent deserialize_u128 deserialize_u64 parse_unsigned from_decimal
    decrypt_from_client decode_key_32 trim_hex_prefix all is_ascii_digit
row-Opens = record {
  session_key = request.encrypted_session_key;
  has_key = refl;
  plaintext = plaintext;
  deciphered = refl;
  intent = plain;
  parsed = refl;
  asset = refl;
  amount_fits = refl;
}

held-AllOpen : AllOpen env held_db.intents
held-AllOpen = one_open row-Opens none_open

settled_ok : (settle_batch env call settle_request held_world).0 ≡ ok tt
unfolding update_where is_ascii_digit is_ascii_hexdigit to_ascii_uppercase trim to_decimal to_hex
    any all retain text_eq len starts_with find_where eq_ignore_ascii_case count_where ◌>>=◌ pure
    execute execute_rows get_db modify_db round_trip transaction attempt send modify_metrics fail
    count_rejections query require_api_key normalize validate_settle_batch_request is_hex_bytes
    is_hex_felt check_ip_limit check_rate_limit count_of incr expire batch_number
    compute_current_batch_id decode_key_32 decrypt_from_client trim_hex_prefix decipher parse_intent
    deserialize_u128 deserialize_u64 parse_unsigned from_decimal release_pending update_intents
    mark_settled sum_amounts release_group release_settled as_db_value settle_intents release_intent
    release_intents settle_tables settle_batch
settled_ok = refl

other_batch : text_eq (codes "1") (codes "2") ≡ false
unfolding text_eq
other_batch = refl

-- Twice 500 are released of the 1200 that are pending, for one intent of 500.
released_twice :
    pending_of (codes "0xa1") (codes "0xb2") (settle_batch env call settle_request held_world).1.db
    ≡ 200
unfolding update_where is_ascii_digit is_ascii_hexdigit to_ascii_uppercase trim to_decimal to_hex
    any all retain text_eq len starts_with find_where eq_ignore_ascii_case count_where ◌>>=◌ pure
    execute execute_rows get_db modify_db round_trip transaction attempt send modify_metrics fail
    count_rejections query require_api_key normalize validate_settle_batch_request is_hex_bytes
    is_hex_felt check_ip_limit check_rate_limit count_of incr expire batch_number
    compute_current_batch_id decode_key_32 decrypt_from_client trim_hex_prefix decipher parse_intent
    deserialize_u128 deserialize_u64 parse_unsigned from_decimal release_pending update_intents
    mark_settled sum_amounts release_group release_settled as_db_value settle_intents release_intent
    release_intents settle_tables settle_batch pending_of balance
released_twice = refl

reconcile_onchain_intent_lem_example :
    Reconciled env call request.intent_id commit_report held_world.db
      (reconcile_onchain_intent env call request.intent_id commit_report held_world).1.db
reconcile_onchain_intent_lem_example =
    reconcile_onchain_intent_lem env call request.intent_id commit_report held_world

close_batch_lem_example :
    let db' = (close_batch env call close_request held_world).1.db in
    ((close_batch env call close_request held_world).0 ≡ ok tt
      → db' ≡ start_auction close_request.batch_id (open_auction close_request held_world.db))
    × ((e : Failure)
        → (close_batch env call close_request held_world).0 ≡ err e
        → (db' ≡ held_world.db) ⊎ (db' ≡ open_auction close_request held_world.db))
close_batch_lem_example = close_batch_lem env call close_request held_world

handlers-Atomic_example :
    Atomic (cancel_intent env call request.intent_id cancel_request)
    × Atomic (fail_batch env call failed_request)
    × Atomic (settle_batch env call settle_request)
handlers-Atomic_example =
    handlers-Atomic env call request.intent_id cancel_request failed_request settle_request

settle_batch-ok_example :
    (db : Db) × Released env
      (retain (in_open_batch settle_request.batch_id) held_world.db.intents)
      held_world.db
      db
    × ((settle_batch env call settle_request held_world).1.db
        ≡ release_settled settle_request.batch_id
            (mark_settled settle_request (settle_intents settle_request.batch_id db)))
settle_batch-ok_example = settle_batch-ok env call settle_request held_world settled_ok

requeue-start_auction_example :
    let db' = requeue (codes "1") (codes "2") (start_auction (codes "1") held_db) in
    (count_where (pending_in (codes "2")) db'.intents
      ≡ count_where (in_open_batch (codes "1")) held_db.intents
        + count_where (pending_in (codes "2")) held_db.intents)
    × (count_where (in_open_batch (codes "1")) db'.intents ≡ 0)
    × (length db'.intents ≡ length held_db.intents)
requeue-start_auction_example = requeue-start_auction (codes "1") (codes "2") held_db other_batch

settle_batch_released_example :
    let owed =
      sum_amounts
        (open_in settle_request.batch_id (codes "0xa1") (codes "0xb2"))
        held_world.db.intents in
    pending_of (codes "0xa1") (codes "0xb2") (settle_batch env call settle_request held_world).1.db
    ≡ pending_of (codes "0xa1") (codes "0xb2") held_world.db
      - owed
      - (owed
          + sum_amounts
              (in_group settle_request.batch_id (codes "0xa1") (codes "0xb2"))
              held_world.db.intents)
settle_batch_released_example =
    settle_batch_released env call settle_request held_world (codes "0xa1") (codes "0xb2")
      held-AllOpen settled_ok
