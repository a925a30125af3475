-- ===== src/Solver/Liquidity/Best.antt =====
-- That the route is the best one.
use blindmarkets.Base.{
  ℕ, ◌≤◌, ◌≡◌, refl, true, false, Bool, ◌&&◌, List, [], ◌∷◌, none, some, Text, all, any, leb, ltb,
  ◌==◌, text_eq, text_eq_refl, arith, inl, inr, ◌⊎◌, ap, ◌∙◌, Bool-cases,
}
use blindmarkets.Solver.Matching.{SolverIntent, Fill}
use blindmarkets.Solver.Liquidity.{
  QuoteRequest, QuoteReply, no_reply, refused, invalid_quote, quote, request_of, quoted, take_quote,
  best_of, find_best_route,
}

-- A reply that offers no more than the price.
abbrev pub is_at_most : ℕ → QuoteReply → Bool
is_at_most price (quote offered source) = leb offered price
is_at_most price _ = true

-- A reply that makes the fill.
abbrev pub offers : Fill → QuoteReply → Bool
offers fill (quote price source) =
    price == fill.execution_price && text_eq source fill.liquidity_source
offers fill _ = false

abbrev pub is_no_quote : QuoteReply → Bool
is_no_quote (quote price source) = false
is_no_quote _ = true

-- The fill is the intent's, at a price that some endpoint offers and none exceeds.
pub record IsBest (ask : Text → QuoteRequest → QuoteReply) (intent : SolverIntent)
    (endpoints : List Text) (fill : Fill) : Type 0 where
  pub of_intent : fill.intent_id ≡ intent.intent_id
  pub whole : fill.fill_amount ≡ intent.amount
  pub offered : any (λ e. offers fill (ask e (request_of intent))) endpoints ≡ true
  pub highest :
      all (λ e. is_at_most fill.execution_price (ask e (request_of intent))) endpoints ≡ true

module _ (ask : Text → QuoteRequest → QuoteReply) (intent : SolverIntent) where
  abbrev is_offered : Text → Fill → Bool
  is_offered endpoint fill = offers fill (ask endpoint (request_of intent))

  abbrev is_highest : Text → Fill → Bool
  is_highest endpoint fill = is_at_most fill.execution_price (ask endpoint (request_of intent))

  abbrev IsQuoted : List Text → Fill → Type 0
  IsQuoted endpoints fill =
      (fill.intent_id ≡ intent.intent_id)
      × (fill.fill_amount ≡ intent.amount)
      × (any (λ e. is_offered e fill) endpoints ≡ true)

  -- What the loop makes of a fill that it has.
  record Improved (endpoints : List Text) (start fill : Fill) : Type 0 where
    pub at_least : start.execution_price ≤ fill.execution_price
    pub source : (fill ≡ start) ⊎ IsQuoted endpoints fill
    pub highest : all (λ e. is_highest e fill) endpoints ≡ true

  record Taken (reply : QuoteReply) (start next : Fill) : Type 0 where
    pub taken : take_quote ask intent reply (some start) ≡ some next
    pub at_least : start.execution_price ≤ next.execution_price
    pub source :
        (next ≡ start)
        ⊎ ((next.intent_id ≡ intent.intent_id)
            × (next.fill_amount ≡ intent.amount)
            × (offers next reply ≡ true))
    pub highest : is_at_most next.execution_price reply ≡ true

  kept :
      (reply : QuoteReply) (start : Fill)
      → take_quote ask intent reply (some start) ≡ some start
      → is_at_most start.execution_price reply ≡ true
      → Taken reply start start
  kept reply start t h = record {
    taken = t;
    at_least = omega arith;
    source = inl refl;
    highest = h;
  }

  one_quote : (reply : QuoteReply) (start : Fill) → (next : Fill) × Taken reply start next
  one_quote (quote price source) start = elim (Bool-cases (ltb start.execution_price price)) [
    | inl better ↦ (
      quoted ask intent price source,
      record {
        taken = rw better refl;
        at_least = ground arith;
        source = inr (refl, refl, ground (arith, text_eq_refl source));
        highest = ground arith;
      },
    )
    | inr worse ↦ (start, kept _ start (rw worse refl) (ground arith))
  ]
  one_quote no_reply start = (start, kept _ start refl refl)
  one_quote refused start = (start, kept _ start refl refl)
  one_quote invalid_quote start = (start, kept _ start refl refl)

  is_at_most_mono :
      (reply : QuoteReply) (p q : ℕ) → p ≤ q → is_at_most p reply ≡ true → is_at_most q reply ≡ true
  is_at_most_mono (quote price source) p q h k = ground arith
  is_at_most_mono no_reply p q h k = refl
  is_at_most_mono refused p q h k = refl
  is_at_most_mono invalid_quote p q h k = refl

  improve :
      (endpoint : Text) (endpoints : List Text) (start next fill : Fill)
      → Taken (ask endpoint (request_of intent)) start next
      → Improved endpoints next fill
      → Improved (endpoint ∷ endpoints) start fill
  unfolding all any
  improve endpoint endpoints start next fill t i = record {
    at_least = omega (arith, t.at_least, i.at_least);
    source = ground (arith, ap (is_offered endpoint) {x = fill} {y = next});
    highest = ground (
      arith,
      is_at_most_mono (ask endpoint (request_of intent)) next.execution_price fill.execution_price,
    );
  }

  best_of-some :
      (endpoints : List Text) (start : Fill)
      → (fill : Fill) × (best_of ask intent endpoints (some start) ≡ some fill)
        × Improved endpoints start fill
  unfolding best_of all
  best_of-some [] start =
      (start, refl, record { at_least = omega arith; source = inl refl; highest = refl })
  best_of-some (endpoint ∷ endpoints) start =
      let (next, t) = one_quote (ask endpoint (request_of intent)) start in
      let (fill, found, i) = best_of-some endpoints next in
      (
        fill,
        ap (best_of ask intent endpoints) t.taken ∙ found,
        improve endpoint endpoints start next fill t i,
      )

  -- What the loop makes of none.
  abbrev Outcome : List Text → Type 0
  Outcome endpoints =
      ((best_of ask intent endpoints none ≡ none)
        × (all (λ e. is_no_quote (ask e (request_of intent))) endpoints ≡ true))
      ⊎ ((fill : Fill) × (best_of ask intent endpoints none ≡ some fill)
          × IsBest ask intent endpoints fill)

  first_quote :
      (endpoint : Text) (endpoints : List Text) (price : ℕ) (source : Text)
      → ask endpoint (request_of intent) ≡ quote price source
      → Outcome (endpoint ∷ endpoints)
  unfolding best_of all any
  first_quote endpoint endpoints price source q =
      let start = quoted ask intent price source in
      let (fill, found, i) = best_of-some endpoints start in
      let head : is_offered endpoint start ≡ true = rw q (ground (arith, text_eq_refl source)) in
      inr (
        fill,
        ap (λ r. best_of ask intent endpoints (take_quote ask intent r none)) q ∙ found,
        record {
          of_intent = ground (arith, i.source);
          whole = ground (arith, i.source);
          offered = ground (arith, i.source, head, ap (is_offered endpoint) {x = fill} {y = start});
          highest = ground (arith, i.highest, i.at_least, q);
        },
      )

  no_quote :
      (endpoint : Text) (endpoints : List Text)
      → is_no_quote (ask endpoint (request_of intent)) ≡ true
      → ((fill : Fill) → is_at_most fill.execution_price (ask endpoint (request_of intent)) ≡ true)
      → take_quote ask intent (ask endpoint (request_of intent)) none ≡ none
      → Outcome endpoints
      → Outcome (endpoint ∷ endpoints)
  unfolding best_of all any
  no_quote endpoint endpoints n h t (inl (found, all_none)) =
      inl (ap (best_of ask intent endpoints) t ∙ found, ground (arith, n, all_none))
  no_quote endpoint endpoints n h t (inr (fill, found, best)) = inr (
    fill,
    ap (best_of ask intent endpoints) t ∙ found,
    record {
      of_intent = best.of_intent;
      whole = best.whole;
      offered = ground (arith, best.offered);
      highest = ground (arith, best.highest, h fill);
    },
  )

  outcome :
      (endpoint : Text) (endpoints : List Text) (reply : QuoteReply)
      → ask endpoint (request_of intent) ≡ reply
      → Outcome endpoints
      → Outcome (endpoint ∷ endpoints)
  outcome endpoint endpoints (quote price source) q rest =
      first_quote endpoint endpoints price source q
  outcome endpoint endpoints no_reply q rest =
      no_quote endpoint endpoints (rw q refl) (λ fill. rw q refl) (rw q refl) rest
  outcome endpoint endpoints refused q rest =
      no_quote endpoint endpoints (rw q refl) (λ fill. rw q refl) (rw q refl) rest
  outcome endpoint endpoints invalid_quote q rest =
      no_quote endpoint endpoints (rw q refl) (λ fill. rw q refl) (rw q refl) rest

  best_of-none : (endpoints : List Text) → Outcome endpoints
  unfolding best_of all
  best_of-none [] = inl (refl, refl)
  best_of-none (endpoint ∷ endpoints) = outcome endpoint endpoints _ refl (best_of-none endpoints)

-- The search for a route finds none exactly where no endpoint quotes a price; else it finds a fill of
-- the whole intent at a price that one of the endpoints offers and no endpoint exceeds.
pub find_best_route-IsBest :
    (ask : Text → QuoteRequest → QuoteReply) (intent : SolverIntent) (endpoints : List Text)
    → ((find_best_route ask intent endpoints ≡ none)
        × (all (λ e. is_no_quote (ask e (request_of intent))) endpoints ≡ true))
      ⊎ ((fill : Fill) × (find_best_route ask intent endpoints ≡ some fill)
          × IsBest ask intent endpoints fill)
unfolding find_best_route
find_best_route-IsBest ask intent endpoints = best_of-none ask intent endpoints
