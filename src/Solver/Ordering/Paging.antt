-- ===== src/Solver/Ordering/Paging.antt =====
-- That the pages together are the whole batch.
use mathlib.Core.List.{append-nil, append_assoc}
use blindmarkets.Base.{
  ℕ, zero, suc, ◌+◌, ◌<◌, ◌≡◌, refl, sym, ap, ◌∙◌, ◌&&◌, List, [], ◌∷◌, ◌++◌, map, none, some, Text,
  text_eq, length, length-append, length_pos, take, drop, retain, is_empty, Bool-cases, inl, inr,
  true, false, arith,
}
use blindmarkets.Gateway.Types.{Intent, Db, is_open}
use blindmarkets.Gateway.Exec.{ok, World, pure}
use blindmarkets.Gateway.Exec.Rules.{>>=-eq-ok, query_ok, ok-injective}
use blindmarkets.Gateway.RateLimit.{check_ip_limit, check_ip_limit-db}
use blindmarkets.Gateway.Env.{Env, Call}
use blindmarkets.Gateway.Query.{page, list_batch_intents}
use blindmarkets.Gateway.Query.Listings.{check_limit_ok}
use blindmarkets.Solver.Ordering.{
  answered, order, PageReply, strings, fetch_pages, fetch_batch_intent_order, all_some, as_reply,
}

strings-all_some : (ids : List Text) → strings (all_some ids) ≡ ids
unfolding strings
strings-all_some [] = refl
strings-all_some (id ∷ ids) = ap (λ t. id ∷ t) (strings-all_some ids)

length-all_some : (ids : List Text) → length (all_some ids) ≡ length ids
length-all_some [] = refl
length-all_some (id ∷ ids) = ap suc (length-all_some ids)

module _ {ℓ} {A : Type ℓ} where
  take-drop : (n : ℕ) (xs : List A) → take n xs ++ drop (length (take n xs)) xs ≡ xs
  take-drop zero xs = refl
  take-drop (suc n) [] = refl
  take-drop (suc n) (x ∷ xs) = ap (λ t. x ∷ t) (take-drop n xs)

  drop-nil : (n : ℕ) → drop {A = A} n [] ≡ []
  drop-nil zero = refl
  drop-nil (suc n) = refl

  drop-add : (m n : ℕ) (xs : List A) → drop (m + n) xs ≡ drop n (drop m xs)
  drop-add zero n xs = let e : 0 + n ≡ n = omega arith in rw e refl
  drop-add (suc m) n [] = drop-nil (suc m + n) ∙ sym (drop-nil n)
  drop-add (suc m) n (x ∷ xs) =
      let e : suc m + n ≡ suc (m + n) = omega arith in rw e (drop-add m n xs)

  length-take-pos : (n : ℕ) (xs : List A) → 0 < n → is_empty (take n xs) ≡ true → xs ≡ []
  length-take-pos (suc n) [] h e = refl
  length-take-pos (suc n) (x ∷ xs) h e = absurd (cc)
  length-take-pos zero xs h e = absurd (omega arith)

-- Pages of the ids, `limit` at most in each.
module _ (get : ℕ → PageReply) (limit : ℕ) (ids : List Text) (positive : 0 < limit)
    (serves : (offset : ℕ) → get offset ≡ answered (all_some (take limit (drop offset ids)))) where
  ends :
      (fuel offset : ℕ) (all_ids served : List Text)
      → get offset ≡ answered (all_some served)
      → is_empty served ≡ true
      → fetch_pages get (suc fuel) offset all_ids ≡ order all_ids
  unfolding fetch_pages
  ends fuel offset all_ids [] q e = rw (q, fetch_pages) refl
  ends fuel offset all_ids (id ∷ served) q e = absurd (cc)

  goes_on :
      (fuel offset : ℕ) (all_ids served : List Text)
      → get offset ≡ answered (all_some served)
      → is_empty served ≡ false
      → fetch_pages get (suc fuel) offset all_ids
        ≡ fetch_pages get fuel (offset + length served) (all_ids ++ served)
  unfolding fetch_pages
  goes_on fuel offset all_ids [] q e = absurd (cc)
  goes_on fuel offset all_ids (id ∷ served) q e =
      rw (q, fetch_pages) (rw (length-all_some served, strings-all_some served) refl)

  fetch_pages-drop :
      (fuel offset : ℕ) (all_ids : List Text)
      → length (drop offset ids) < fuel
      → fetch_pages get fuel offset all_ids ≡ order (all_ids ++ drop offset ids)
  fetch_pages-drop zero offset all_ids h = absurd (omega arith)
  fetch_pages-drop (suc fuel) offset all_ids h =
      let left = drop offset ids in
      let served = take limit left in
      elim (Bool-cases (is_empty served)) [
        | inl e ↦
            ends fuel offset all_ids served (serves offset) e
            ∙ ap order (
                sym (append-nil all_ids)
                ∙ ap (λ t. all_ids ++ t) (sym (length-take-pos limit left positive e)))
        | inr e ↦
            let next = drop-add offset (length served) ids in
            let whole = take-drop limit left in
            let lengths = ap length whole in
            goes_on fuel offset all_ids served (serves offset) e
            ∙ fetch_pages-drop fuel (offset + length served) (all_ids ++ served) (
                omega (
                  arith,
                  ap length next,
                  lengths,
                  length-append served (drop (length served) left),
                  length_pos served e,
                ))
            ∙ ap order (
                append_assoc all_ids served _
                ∙ ap (λ t. all_ids ++ t) (ap (λ t. served ++ t) next ∙ whole))
      ]

module _ {A B : Type 0} (f : A → B) where
  map-take : (n : ℕ) (xs : List A) → map f (take n xs) ≡ take n (map f xs)
  map-take zero xs = refl
  map-take (suc n) [] = refl
  map-take (suc n) (x ∷ xs) = ap (λ t. f x ∷ t) (map-take n xs)

  map-drop : (n : ℕ) (xs : List A) → map f (drop n xs) ≡ drop n (map f xs)
  map-drop zero xs = refl
  map-drop (suc n) [] = refl
  map-drop (suc n) (x ∷ xs) = map-drop n xs

-- The ids of a batch's open intents, in the order of the table.
abbrev pub open_ids : Text → Db → List Text
open_ids batch_id d =
    map (λ (row : Intent). row.intent_id)
      (retain (λ row. text_eq row.batch_id batch_id && is_open row.status) d.intents)

list_batch_intents-ok :
    (env : Env) (call : Call) (batch_id : Text) (offset : ℕ) (w : World) (ids : List Text)
    → (list_batch_intents env call batch_id none (some offset) w).0 ≡ ok ids
    → (ids ≡ take env.config.max_page_size (drop offset (open_ids batch_id w.db)))
      × (0 < env.config.max_page_size)
unfolding list_batch_intents pure page
list_batch_intents-ok env call batch_id offset w ids h =
    let (_, q1, h1, e1) = >>=-eq-ok _ _ w h in
    let (_, q2, h2, e2) = >>=-eq-ok _ _ _ h1 in
    let (_, q3, h3, e3) = >>=-eq-ok _ _ _ h2 in
    let (_, q4, h4, e4) = >>=-eq-ok _ _ _ h3 in
    let (found, q5, h5, e5) = >>=-eq-ok _ _ _ h4 in
    let limit = env.config.max_page_size in
    let rows =
      λ (d : Db). retain (λ row. text_eq row.batch_id batch_id && is_open row.status) d.intents in
    let pick = λ (d : Db). page limit offset (rows d) in
    let w2 = (check_ip_limit env.config call.client_ip w).1 in
    let same2 = check_ip_limit-db env.config call.client_ip w in
    let found_is = query_ok pick w2 q5 ∙ ap pick same2 in
    let id_of = λ (row : Intent). row.intent_id in
    (
      sym (ok-injective h5)
          ∙ ap (map id_of) found_is
          ∙ map-take id_of limit (drop offset (rows w.db))
          ∙ ap (take limit) (map-drop id_of offset (rows w.db)),
      (check_limit_ok env limit q4).0,
    )

-- A solver that asks the gateway for the ids of a batch, page by page, while the tables stay as they
-- are and every answer is OK, gets the ids of all its open intents, each once and in the order of
-- their sequence, after one more request than there are ids at most.
pub fetch_batch_intent_order-list_batch_intents :
    (env : Env) (calls : ℕ → Call) (worlds : ℕ → World) (d : Db) (batch_id : Text) (fuel : ℕ)
    (pages : ℕ → List Text)
    → ((offset : ℕ) → (worlds offset).db ≡ d)
    → ((offset : ℕ)
        → (list_batch_intents env (calls offset) batch_id none (some offset) (worlds offset)).0
          ≡ ok (pages offset))
    → length (open_ids batch_id d) < fuel
    → fetch_batch_intent_order
        (λ offset.
          as_reply
            (list_batch_intents env (calls offset) batch_id none (some offset) (worlds offset)).0)
        fuel
      ≡ order (open_ids batch_id d)
unfolding fetch_batch_intent_order
fetch_batch_intent_order-list_batch_intents env calls worlds d batch_id fuel pages still answers h =
    let facts =
      λ (o : ℕ). list_batch_intents-ok env (calls o) batch_id o (worlds o) (pages o) (answers o) in
    fetch_pages-drop _ env.config.max_page_size (open_ids batch_id d) (facts 0).1
      (λ o. ap as_reply (
        answers o
        ∙ ap ok (
            (facts o).0
            ∙ ap (λ db. take env.config.max_page_size (drop o (open_ids batch_id db))) (still o))))
      fuel 0 [] h
