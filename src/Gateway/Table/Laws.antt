-- ===== src/Gateway/Table/Laws.antt =====
-- What the statements of the gateway do to what is pending, to the nonces and to the intents.
use blindmarkets.Base.{
  ℕ, ◌+◌, ◌-◌, ◌≡◌, Bool, true, false, not, ◌&&◌, List, [], ◌∷◌, ◌++◌, Text, text_eq, text_eq_iff,
  text_eq_refl, if◌then◌else◌, any, retain, update_where, arith,
}
use blindmarkets.Gateway.Types.{UserNonce, PendingBalance, Db}
use blindmarkets.Gateway.Table.{
  is_nonce, has_nonce, insert_nonce, delete_nonce, is_balance, upsert_balance, add_pending,
  release_pending, balance, pending_of,
}

abbrev pub same_key : Text → Text → Text → Text → Bool
same_key user asset user' asset' = text_eq user user' && text_eq asset asset'

balance-upsert_balance :
    (u a u' a' : Text) (n : ℕ) (rows : List PendingBalance)
    → balance u' a' (upsert_balance u a n rows)
      ≡ (if same_key u a u' a' then balance u' a' rows + n else balance u' a' rows)
unfolding balance upsert_balance
balance-upsert_balance u a u' a' n [] = ground arith
balance-upsert_balance u a u' a' n (row ∷ rows) = ground (
  arith,
  text_eq_iff row.user_address u,
  text_eq_iff row.asset_address a,
  text_eq_iff row.user_address u',
  text_eq_iff row.asset_address a',
  text_eq_iff u u',
  text_eq_iff a a',
  balance-upsert_balance u a u' a' n rows,
)

pub pending_of-add_pending :
    (u a u' a' : Text) (n : ℕ) (d : Db)
    → pending_of u' a' (add_pending u a n d)
      ≡ (if same_key u a u' a' then pending_of u' a' d + n else pending_of u' a' d)
unfolding pending_of add_pending
pending_of-add_pending u a u' a' n d = balance-upsert_balance u a u' a' n d.pending_balances

balance-release :
    (u a u' a' : Text) (n : ℕ) (rows : List PendingBalance)
    → balance u' a' (
        update_where
          (is_balance u a)
          (λ row. record row { pending_amount = row.pending_amount - n })
          rows)
      ≡ (if same_key u a u' a' then balance u' a' rows - n else balance u' a' rows)
unfolding balance update_where
balance-release u a u' a' n [] = ground arith
balance-release u a u' a' n (row ∷ rows) = ground (
  arith,
  text_eq_iff row.user_address u,
  text_eq_iff row.asset_address a,
  text_eq_iff row.user_address u',
  text_eq_iff row.asset_address a',
  text_eq_iff u u',
  text_eq_iff a a',
  balance-release u a u' a' n rows,
)

pub pending_of-release_pending :
    (u a u' a' : Text) (n : ℕ) (d : Db)
    → pending_of u' a' (release_pending u a n d)
      ≡ (if same_key u a u' a' then pending_of u' a' d - n else pending_of u' a' d)
unfolding pending_of release_pending
pending_of-release_pending u a u' a' n d = balance-release u a u' a' n d.pending_balances

any-append {ℓ} :
    {A : Type ℓ} (p : A → Bool) (xs : List A) (y : A)
    → any p (xs ++ y ∷ []) ≡ (if any p xs then true else p y)
unfolding any
any-append p [] y = ground arith
any-append p (x ∷ xs) y = ground (arith, any-append p xs y)

-- A nonce that was inserted is there.
pub has_nonce-insert_nonce : (u n : Text) (d : Db) → has_nonce u n (insert_nonce u n d).1 ≡ true
unfolding insert_nonce has_nonce
has_nonce-insert_nonce u n d = ground (
  arith,
  text_eq_refl u,
  text_eq_refl n,
  any-append (is_nonce u n) d.user_nonces (record { user_address = u; nonce = n }),
)

retain_append_self :
    (u n : Text) (rows : List UserNonce)
    → any (is_nonce u n) rows ≡ false
    → retain (λ row. not (is_nonce u n row)) (rows ++ record { user_address = u; nonce = n } ∷ [])
      ≡ rows
unfolding any retain
retain_append_self u n [] h = ground (arith, text_eq_refl u, text_eq_refl n)
retain_append_self u n (row ∷ rows) h = ground (arith, retain_append_self u n rows)

-- Deleting a nonce that was new undoes its insertion.
pub delete_nonce-insert_nonce :
    (u n : Text) (d : Db) → has_nonce u n d ≡ false → delete_nonce u n (insert_nonce u n d).1 ≡ d
unfolding delete_nonce insert_nonce has_nonce
delete_nonce-insert_nonce u n d h = ground (arith, retain_append_self u n d.user_nonces)

-- A statement on the key of a new row at the end touches that row alone.
pub update_where-append_new {ℓ} :
    {A : Type ℓ} (p : A → Bool) (f : A → A) (xs : List A) (y : A)
    → any p xs ≡ false
    → p y ≡ true
    → update_where p f (xs ++ y ∷ []) ≡ xs ++ f y ∷ []
unfolding any update_where
update_where-append_new p f [] y h k = ground arith
update_where-append_new p f (x ∷ xs) y h k = ground (arith, update_where-append_new p f xs y)
