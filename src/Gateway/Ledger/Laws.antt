-- ===== src/Gateway/Ledger/Laws.antt =====
-- What the operations of the pending ledger do to every balance.
use blindmarkets.Base.{
  ℕ, ◌+◌, ◌-◌, ◌%◌, ◌^◌, ◌<◌, ◌≡◌, Bool, ◌&&◌, List, [], ◌∷◌, none, some, unwrap_or, Text, text_eq,
  text_eq_iff, retain, if◌then◌else◌, arith,
}
use blindmarkets.Gateway.Ledger.{
  Entry, PendingLedger, get, insert, remove, add_pending_intent, remove_pending_intent,
  get_pending_balance,
}

abbrev pub same_entry : Text → Text → Text → Text → Bool
same_entry user asset user' asset' = text_eq user user' && text_eq asset asset'

get-insert :
    (u a u' a' : Text) (n : ℕ) (es : List Entry)
    → get u' a' (insert u a n es) ≡ (if same_entry u a u' a' then some n else get u' a' es)
unfolding get insert
get-insert u a u' a' n [] = ground arith
get-insert u a u' a' n (e ∷ es) = ground (
  arith,
  text_eq_iff e.user_address u,
  text_eq_iff e.asset a,
  text_eq_iff e.user_address u',
  text_eq_iff e.asset a',
  text_eq_iff u u',
  text_eq_iff a a',
  get-insert u a u' a' n es,
)

get-remove :
    (u a u' a' : Text) (es : List Entry)
    → get u' a' (remove u a es) ≡ (if same_entry u a u' a' then none else get u' a' es)
unfolding get remove retain
get-remove u a u' a' [] = ground arith
get-remove u a u' a' (e ∷ es) = ground (
  arith,
  text_eq_iff e.user_address u,
  text_eq_iff e.asset a,
  text_eq_iff e.user_address u',
  text_eq_iff e.asset a',
  text_eq_iff u u',
  text_eq_iff a a',
  get-remove u a u' a' es,
)

-- While no u128 sum overflows: adding an amount raises the balance of its user and asset by it,
-- removing one lowers that balance by it and stops at 0, and neither touches another balance.
pub ledger_balances :
    (l added removed : PendingLedger) (u a u' a' : Text) (n m before : ℕ)
    → add_pending_intent l u a n ≡ some added
    → remove_pending_intent l u a m ≡ some removed
    → get_pending_balance l u' a' ≡ some before
    → before + n < 2 ^ 128
    → (get_pending_balance added u' a' ≡ some (if same_entry u a u' a' then before + n else before))
      × (get_pending_balance removed u' a'
          ≡ some (if same_entry u a u' a' then before - m else before))
unfolding add_pending_intent remove_pending_intent get_pending_balance
ledger_balances l added removed u a u' a' n m before p q r small = ground (
  arith,
  text_eq_iff u u',
  text_eq_iff a a',
  get-insert u a u' a' ((unwrap_or (get u a l.balances) 0 + n) % 2 ^ 128) l.balances,
  get-insert u a u' a' (unwrap_or (get u a l.balances) 0 - m) l.balances,
  get-remove u a u' a' l.balances,
)
