-- ===== src/Observer/Indexer/Idle.antt =====
-- Polls that find nothing.
use blindmarkets.Base.{
  ℕ, zero, suc, ◌+◌, ◌^◌, ◌≤◌, ◌<◌, ◌≡◌, refl, ◌∙◌, ap, true, List, [], ◌∷◌, none, Text, length,
  is_empty, arith,
}
use blindmarkets.Observer.Events.{handle_events}
use blindmarkets.Observer.Indexer.{
  Outside, ObserverIndexer, EventsResult, fetched, fetch_events, max_block, poll_events, run,
}
use blindmarkets.Observer.Indexer.Pages.{Scan, no_contract, contract, idle}
use blindmarkets.Observer.Indexer.Polling.{poll_events-Scan}

-- The node has no event to serve from this block on.
pub record IsQuiet (o : Outside) (block : ℕ) : Type 0 where
  pub answer : ℕ → ℕ → Text → EventsResult
  pub answers :
      (from : ℕ)
      → block ≤ from
      → (call : ℕ) (address : Text)
      → fetch_events o from call address none ≡ fetched (answer from call address)
  pub empty :
      (from : ℕ)
      → block ≤ from
      → (call : ℕ) (address : Text) → is_empty (answer from call address).events ≡ true

module _ (o : Outside) (block : ℕ) (quiet : IsQuiet o block) where
  Scan-quiet :
      (x : ObserverIndexer) (fuel n : ℕ) (addresses : List Text)
      → block ≤ x.current_block
      → 0 < fuel
      → Scan o x.config x.current_block fuel n addresses [] (n + length addresses)
  Scan-quiet x fuel n [] l h = let e : n + 0 ≡ n = omega arith in rw e no_contract
  Scan-quiet x fuel n (address ∷ addresses) l h =
      let e : n + suc (length addresses) ≡ suc n + length addresses = omega arith in
      rw e (
        contract
          (idle (quiet.answer x.current_block n address) (quiet.answers x.current_block l n address)
            (rw (quiet.empty x.current_block l n address) refl))
          (omega arith) (Scan-quiet x fuel (suc n) addresses l h) refl)

  poll_quiet :
      (fuel : ℕ) (x : ObserverIndexer)
      → block ≤ x.current_block
      → 0 < fuel
      → x.current_block + 1 < 2 ^ 64
      → ((poll_events o fuel x).1.current_block ≡ x.current_block + 1)
        × ((poll_events o fuel x).1.desk ≡ x.desk)
  unfolding max_block handle_events
  poll_quiet fuel x l h bound =
      let e =
        poll_events-Scan o fuel x [] _
          (Scan-quiet x fuel x.calls x.config.contract_addresses l h) in
      (ap (λ r. r.1.current_block) e ∙ omega arith, ap (λ r. r.1.desk) e)

  run_quiet :
      (fuel polls : ℕ) (x : ObserverIndexer)
      → block ≤ x.current_block
      → 0 < fuel
      → x.current_block + polls < 2 ^ 64
      → ((run o fuel polls x).current_block ≡ x.current_block + polls)
        × ((run o fuel polls x).desk ≡ x.desk)
  unfolding run
  run_quiet fuel zero x l h bound = (omega arith, refl)
  run_quiet fuel (suc polls) x l h bound =
      let (moved, same) = poll_quiet fuel x l h (omega arith) in
      let (moved', same') =
        run_quiet fuel polls (poll_events o fuel x).1 (omega (arith, moved)) h
          (omega (arith, moved)) in
      (omega (arith, moved, moved'), same' ∙ same)

-- Every poll that finds no event moves the checkpoint one block on: after any number of polls of a
-- node that has no event from the checkpoint on, the observer will ask for the events from that many
-- blocks later than it began with, and has posted nothing. Nothing bounds the checkpoint by the
-- chain's latest block.
pub run_idle :
    (o : Outside) (fuel polls : ℕ) (x : ObserverIndexer)
    → IsQuiet o x.current_block
    → 0 < fuel
    → x.current_block + polls < 2 ^ 64
    → ((run o fuel polls x).current_block ≡ x.current_block + polls)
      × ((run o fuel polls x).desk ≡ x.desk)
run_idle o fuel polls x quiet h = run_quiet o x.current_block quiet fuel polls x (omega arith) h
