-- ===== src/Observer/Indexer/Polling.antt =====
-- What a poll leaves.
use blindmarkets.Base.{ℕ, ◌+◌, ◌%◌, ◌^◌, ◌≡◌, refl, List, some, to_decimal, if◌then◌else◌, arith}
use blindmarkets.Observer.Events.{RawEvent, handle_events}
use blindmarkets.Observer.Indexer.{
  Outside, ObserverIndexer, max_block, done, begin, take_events, advance, poll_events,
}
use blindmarkets.Observer.Indexer.Pages.{max_block-ge, Scan, read_addresses-Scan}

-- The indexer after the events of a scan: all are handled, and the checkpoint is the block after the
-- latest of theirs, or after the block that the poll began with.
abbrev pub after : Outside → ObserverIndexer → List RawEvent → ℕ → ObserverIndexer
after o x events calls =
    let next = (max_block x.current_block events + 1) % 2 ^ 64 in
    record x {
      calls = calls;
      desk = handle_events o.gateway o.clock x.config events x.desk;
      current_block = next;
      checkpoint = if o.can_write next then some (to_decimal next) else x.checkpoint;
    }

-- Where the node serves the pages of every contract within the fuel, a poll ends well: it has
-- handled every event, in the order served, whatever became of the messages, and the next poll
-- begins at the block after the latest event's, or after the block that this one began with.
pub poll_events-Scan :
    (o : Outside) (fuel : ℕ) (x : ObserverIndexer) (events : List RawEvent) (calls : ℕ)
    → Scan o x.config x.current_block fuel x.calls x.config.contract_addresses events calls
    → poll_events o fuel x ≡ (done, after o x events calls)
unfolding poll_events advance take_events
poll_events-Scan o fuel x events calls scan = ground (
  arith,
  read_addresses-Scan o x.config x.current_block (begin x) scan refl,
  max_block-ge x.current_block events,
)
