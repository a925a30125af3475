-- ===== src/Gateway/Query/Listings.antt =====
-- What the listings of the gateway contain.
use mathlib.Core.Path.{subst}
use mathlib.Core.List.{reverse, reverse_aux}
use blindmarkets.Base.{
  ℕ, zero, suc, ◌≤◌, ◌<◌, ◌≡◌, refl, sym, ap, ◌∙◌, Bool, true, List, [], ◌∷◌, Text, unwrap_or,
  length, all, retain, retain-all, take, drop, arith,
}
use blindmarkets.Gateway.Types.{Intent, Db}
use blindmarkets.Gateway.Exec.{ok, World, pure}
use blindmarkets.Gateway.Exec.Rules.{>>=-eq-ok, query_ok, Quiet-query, ok-injective}
use blindmarkets.Gateway.RateLimit.{check_ip_limit, check_ip_limit-db}
use blindmarkets.Gateway.Env.{Env, Call}
use blindmarkets.Gateway.Query.{ListIntentsQuery, page, check_limit, selects, list_intents}

module _ {ℓ} {A : Type ℓ} where
  length-take-le : (n : ℕ) (xs : List A) → length (take n xs) ≤ n
  length-take-le zero xs = omega arith
  length-take-le (suc n) [] = omega arith
  length-take-le (suc n) (x ∷ xs) = omega (arith, length-take-le n xs)

  all-take : (p : A → Bool) (n : ℕ) (xs : List A) → all p xs ≡ true → all p (take n xs) ≡ true
  unfolding all
  all-take p zero xs h = refl
  all-take p (suc n) [] h = refl
  all-take p (suc n) (x ∷ xs) h = ground (arith, all-take p n xs)

  all-drop : (p : A → Bool) (n : ℕ) (xs : List A) → all p xs ≡ true → all p (drop n xs) ≡ true
  unfolding all
  all-drop p zero xs h = h
  all-drop p (suc n) [] h = refl
  all-drop p (suc n) (x ∷ xs) h = all-drop p n xs (ground arith)

  all-reverse_aux :
      (p : A → Bool) (xs acc : List A)
      → all p xs ≡ true
      → all p acc ≡ true
      → all p (reverse_aux xs acc) ≡ true
  unfolding all
  all-reverse_aux p [] acc h k = k
  all-reverse_aux p (x ∷ xs) acc h k = all-reverse_aux p xs (x ∷ acc) (ground arith) (ground arith)

  all-reverse : (p : A → Bool) (xs : List A) → all p xs ≡ true → all p (reverse xs) ≡ true
  unfolding all
  all-reverse p xs h = all-reverse_aux p xs [] h refl

pub check_limit_ok :
    (env : Env) (limit : ℕ)
    → check_limit env limit ≡ ok tt
    → (0 < limit) × (limit ≤ env.config.max_page_size)
unfolding check_limit
check_limit_ok env limit h = (ground arith, ground arith)

-- The rows that a page can show are those of the filter.
page-selects :
    (p : Intent → Bool) (limit offset : ℕ) (rows : List Intent)
    → all p (page limit offset (reverse (retain p rows))) ≡ true
unfolding page
page-selects p limit offset rows =
    all-take p limit _ (all-drop p offset _ (all-reverse p _ (retain-all p rows)))

length-page-le : (limit offset : ℕ) (rows : List Intent) → length (page limit offset rows) ≤ limit
unfolding page
length-page-le limit offset rows = length-take-le limit (drop offset rows)

-- The answer OK of `list_intents` holds the asked page of the rows that the filters select, newest
-- first: each of them fits the filters, and they are no more than the answered limit, which is
-- positive and at most the configured maximum. The tables are as before.
pub list_intents-ok :
    (upper : ℕ → Text) (env : Env) (call : Call) (q : ListIntentsQuery) (w : World)
    (rows : List Intent) (limit offset : ℕ)
    → (list_intents upper env call q w).0 ≡ ok (rows, limit, offset)
    → (rows ≡ page limit offset (reverse (retain (selects upper q) w.db.intents)))
      × (all (selects upper q) rows ≡ true)
      × (length rows ≤ limit)
      × (0 < limit)
      × (limit ≤ env.config.max_page_size)
      × ((list_intents upper env call q w).1.db ≡ w.db)
unfolding list_intents pure
list_intents-ok upper env call q w rows limit offset h =
    let (_, q1, h1, e1) = >>=-eq-ok _ _ w h in
    let (_, q2, h2, e2) = >>=-eq-ok _ _ _ h1 in
    let (_, q3, h3, e3) = >>=-eq-ok _ _ _ h2 in
    let (_, q4, h4, e4) = >>=-eq-ok _ _ _ h3 in
    let (found, q5, h5, e5) = >>=-eq-ok _ _ _ h4 in
    let limit' = unwrap_or q.limit env.config.max_page_size in
    let offset' = unwrap_or q.offset 0 in
    let pick = λ (d : Db). page limit' offset' (reverse (retain (selects upper q) d.intents)) in
    let w2 = (check_ip_limit env.config call.client_ip w).1 in
    let same2 = check_ip_limit-db env.config call.client_ip w in
    let answer = ok-injective h5 in
    let rows_eq =
      sym (ap (λ (x : List Intent × ℕ × ℕ). x.0) answer) ∙ query_ok pick w2 q5 ∙ ap pick same2 in
    let limit_eq = ap (λ (x : List Intent × ℕ × ℕ). x.1) answer in
    let offset_eq = ap (λ (x : List Intent × ℕ × ℕ). x.2) answer in
    let limits = check_limit_ok env limit' q4 in
    (
      rows_eq
          ∙ ap (λ l. page l offset' (reverse (retain (selects upper q) w.db.intents))) limit_eq
          ∙ ap (λ o. page limit o (reverse (retain (selects upper q) w.db.intents))) offset_eq,
      ap (all (selects upper q)) rows_eq
          ∙ page-selects (selects upper q) limit' offset' w.db.intents,
      subst (λ l. length rows ≤ l) limit_eq
          (subst (λ x. length x ≤ limit') (sym rows_eq)
            (length-page-le limit' offset' (reverse (retain (selects upper q) w.db.intents)))),
      subst (λ l. 0 < l) limit_eq limits.0,
      subst (λ l. l ≤ env.config.max_page_size) limit_eq limits.1,
      e1 ∙ e2 ∙ e3 ∙ e4 ∙ e5 ∙ (Quiet-query pick).at w2 ∙ same2,
    )
