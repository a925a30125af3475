-- ===== src/Observer/Indexer/Pages.antt =====
-- The pages that the node serves, and that reading them takes every event of them, in order.
use blindmarkets.Base.{
  ℕ, zero, suc, ◌+◌, ◌≤◌, ◌<◌, ◌≡◌, refl, true, false, List, [], ◌∷◌, ◌++◌, Option, none, some,
  Text, arith,
}
use blindmarkets.Observer.Config.{ObserverConfig}
use blindmarkets.Observer.Posting.{Desk}
use blindmarkets.Observer.Events.{RawEvent, handle_events}
use blindmarkets.Observer.Indexer.{
  EventsResult, fetched, Outside, fetch_events, later, max_block, Progress, done, take_events,
  is_idle, read_pages, read_addresses,
}

max_block-append :
    (seen : ℕ) (es fs : List RawEvent)
    → max_block seen (es ++ fs) ≡ max_block (max_block seen es) fs
unfolding max_block
max_block-append seen [] fs = refl
max_block-append seen (e ∷ es) fs = max_block-append (later seen e.block_number) es fs

pub max_block-ge : (seen : ℕ) (es : List RawEvent) → seen ≤ max_block seen es
unfolding max_block
max_block-ge seen [] = omega arith
max_block-ge seen (e ∷ es) = ground (arith, max_block-ge (later seen e.block_number) es)

module _ (o : Outside) (c : ObserverConfig) (from_block : ℕ) where
  handle_events-append :
      (es fs : List RawEvent) (desk : Desk)
      → handle_events o.gateway o.clock c (es ++ fs) desk
        ≡ handle_events o.gateway o.clock c fs (handle_events o.gateway o.clock c es desk)
  unfolding handle_events
  handle_events-append [] fs desk = refl
  handle_events-append (e ∷ es) fs desk = handle_events-append es fs _

  abbrev pub read_to : List RawEvent → ℕ → Progress → Progress
  read_to es n p = take_events o c from_block es (record p { calls = n })

  read_to-append :
      (es fs : List RawEvent) (m n : ℕ) (p : Progress)
      → read_to fs n (read_to es m p) ≡ read_to (es ++ fs) n p
  unfolding take_events
  read_to-append es fs m n p =
      ground (arith, handle_events-append es fs p.desk, max_block-append p.max_seen_block es fs)

  -- From the request of number `n` for a page, with its token, the node serves these events, and the
  -- next request has the number at the end.
  pub data Pages (address : Text) : ℕ → Option Text → List RawEvent → ℕ → Type 0 where
    idle :
        {n : ℕ} {token : Option Text} (result : EventsResult)
        → fetch_events o from_block n address token ≡ fetched result
        → is_idle o c from_block token result ≡ true
        → Pages address n token [] (suc n)
    final :
        {n : ℕ} {token : Option Text} {events : List RawEvent} (result : EventsResult)
        → fetch_events o from_block n address token ≡ fetched result
        → is_idle o c from_block token result ≡ false
        → result.continuation_token ≡ none
        → events ≡ result.events
        → Pages address n token events (suc n)
    more :
        {n n' : ℕ} {token : Option Text} {events rest : List RawEvent} (result : EventsResult)
        (next : Text)
        → fetch_events o from_block n address token ≡ fetched result
        → is_idle o c from_block token result ≡ false
        → result.continuation_token ≡ some next
        → events ≡ result.events ++ rest
        → Pages address (suc n) (some next) rest n'
        → Pages address n token events n'

  Pages-lt :
      {address : Text} {n n' : ℕ} {token : Option Text} {events : List RawEvent}
      → Pages address n token events n'
      → n < n'
  Pages-lt (idle result f i) = omega arith
  Pages-lt (final result f i t e) = omega arith
  Pages-lt (more result next f i t e rest) = omega (arith, Pages-lt rest)

  read_pages-Pages :
      {address : Text} {n n' : ℕ} {token : Option Text} {events : List RawEvent} (fuel : ℕ)
      (p : Progress)
      → Pages address n token events n'
      → p.calls ≡ n
      → n' ≤ n + fuel
      → read_pages o c from_block fuel address token p ≡ (done, read_to events n' p)
  unfolding read_pages take_events handle_events max_block
  read_pages-Pages zero p pages q h = absurd (omega (arith, Pages-lt pages))
  read_pages-Pages (suc fuel) p (idle result f i) q h = ground arith
  read_pages-Pages {n = n} {n' = n'} (suc fuel) p (final result f i t e) q h = ground arith
  read_pages-Pages {n = n} {n' = n'} (suc fuel) p (more {rest = others} result next f i t e rest) q
        h =
      ground (
        arith,
        read_pages-Pages fuel (read_to result.events (suc n) p) rest refl,
        read_to-append result.events others (suc n) n' p,
      )

  -- The contracts one after the other, each within the fuel.
  pub data Scan (fuel : ℕ) : ℕ → List Text → List RawEvent → ℕ → Type 0 where
    no_contract : {n : ℕ} → Scan fuel n [] [] n
    contract :
        {n m k : ℕ} {address : Text} {addresses : List Text} {all events rest : List RawEvent}
        → Pages address n none events m
        → m ≤ n + fuel
        → Scan fuel m addresses rest k
        → all ≡ events ++ rest
        → Scan fuel n (address ∷ addresses) all k

  pub read_addresses-Scan :
      {fuel n k : ℕ} {addresses : List Text} {events : List RawEvent} (p : Progress)
      → Scan fuel n addresses events k
      → p.calls ≡ n
      → read_addresses o c from_block fuel addresses p ≡ (done, read_to events k p)
  unfolding read_addresses take_events handle_events max_block
  read_addresses-Scan p no_contract q = ground arith
  read_addresses-Scan {fuel = fuel} p
        (contract {m = m} {k = k} {events = es} {rest = fs} pages enough others e) q =
      ground (
        arith,
        read_pages-Pages fuel p pages q enough,
        read_addresses-Scan (read_to es m p) others refl,
        read_to-append es fs m k p,
      )
