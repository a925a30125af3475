-- ===== src/Solver/Ordering.antt =====
-- `fetch_batch_intent_order` of solver-reference/src/main.rs: the ids of a batch, page by page from
-- the gateway. `get offset` is what the request with this offset comes to.
pub mod Paging
use blindmarkets.Base.{
  ℕ, zero, suc, ◌+◌, List, [], ◌∷◌, ◌++◌, Option, none, some, Text, length, is_empty, if◌then◌else◌,
}
use blindmarkets.Gateway.Exec.{Result, ok, err}

-- An answer whose `intent_ids` is an array; an entry that is no string is none.
pub data PageReply : Type 0 where
  transport_error refused invalid_payload : PageReply
  answered : List (Option Text) → PageReply

pub data OrderResult : Type 0 where
  order : List Text → OrderResult
  order_error : PageReply → OrderResult
  out_of_fuel : OrderResult

unfoldable pub strings : List (Option Text) → List Text
strings [] = []
strings (none ∷ entries) = strings entries
strings (some id ∷ entries) = id ∷ strings entries

module _ (get : ℕ → PageReply) where
  unfoldable pub fetch_pages : ℕ → ℕ → List Text → OrderResult
  unfolding strings
  fetch_pages zero offset all_ids = out_of_fuel
  fetch_pages (suc fuel) offset all_ids = elim (get offset) [
    | answered intents ↦
        let rest = fetch_pages fuel (offset + length intents) (all_ids ++ strings intents) in
        if is_empty intents then order all_ids else rest
    | error ↦ order_error error
  ]

  unfoldable pub fetch_batch_intent_order : ℕ → OrderResult
  unfolding fetch_pages
  fetch_batch_intent_order fuel = fetch_pages fuel 0 []

abbrev pub all_some : List Text → List (Option Text)
all_some [] = []
all_some (id ∷ ids) = some id ∷ all_some ids

-- What the solver sees of the gateway's answer.
abbrev pub as_reply : Result (List Text) → PageReply
as_reply (ok ids) = answered (all_some ids)
as_reply (err e) = refused
