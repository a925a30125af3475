-- ===== src/Witnesses/Histories.antt =====
-- The theorems on sequences of requests, where one intent is stored.
use blindmarkets.Base.{◌≡◌, refl, some}
use blindmarkets.Gateway.Types.{Intent}
use blindmarkets.Base.{any, text_eq, find_where}
use blindmarkets.Gateway.Table.{find_intent}
use blindmarkets.Gateway.Batches.Release.{AllOpen, none_open}
use blindmarkets.Gateway.Lifecycle.{
  Request, submit, cancel, handle, here, after, Distinct, no_rows, one_more, Step,
}
use blindmarkets.Gateway.Lifecycle.Handlers.{handle-Step}
use blindmarkets.Gateway.Lifecycle.Reach.{Persists, Reaches-find, Reaches-AllOpen}
use blindmarkets.Witnesses.Data.{
  env, call, request, row, held_db, fresh_world, held_world, cancel_request,
}

held-Distinct : Distinct held_db.intents
unfolding any
held-Distinct = one_more refl no_rows

found : find_intent request.intent_id held_db ≡ some row
unfolding find_intent find_where text_eq
found = refl

abbrev canceling : Request
canceling = cancel request.intent_id cancel_request

handle-Step_example :
    Step env held_world.db.intents (handle env call canceling held_world).db.intents
handle-Step_example = handle-Step env call canceling held_world held-Distinct

Reaches-find_example :
    (row' : Intent) × (find_intent request.intent_id (handle env call canceling held_world).db
      ≡ some row')
    × Persists row row'
Reaches-find_example =
    Reaches-find env held_world (handle env call canceling held_world) request.intent_id row
      (after call canceling here) held-Distinct found

Reaches-AllOpen_example :
    Distinct (handle env call (submit request) fresh_world).db.intents
    × AllOpen env (handle env call (submit request) fresh_world).db.intents
Reaches-AllOpen_example =
    Reaches-AllOpen env fresh_world (handle env call (submit request) fresh_world)
      (after call (submit request) here) no_rows none_open
