-- ===== src/Gateway/Ledger.antt =====
-- backend/gateway/src/pending_ledger.rs. The map is an association list; a u128 sum wraps. A
-- poisoned lock makes every operation an error, none here.
pub mod Laws
use blindmarkets.Base.{
  ℕ, ◌+◌, ◌-◌, ◌%◌, ◌^◌, Bool, ◌&&◌, List, [], ◌∷◌, Option, none, some, unwrap_or, Text, text_eq,
  leb, not, retain, if◌then◌else◌,
}

pub record Entry : Type 0 where
  pub user_address : Text
  pub asset : Text
  pub amount : ℕ

pub record PendingLedger : Type 0 where
  pub balances : List Entry
  pub poisoned : Bool

abbrev pub wrap_u128 : ℕ → ℕ
wrap_u128 n = n % 2 ^ 128

abbrev pub is_entry : Text → Text → Entry → Bool
is_entry user asset e = text_eq e.user_address user && text_eq e.asset asset

unfoldable pub get : Text → Text → List Entry → Option ℕ
get user asset [] = none
get user asset (e ∷ es) = if is_entry user asset e then some e.amount else get user asset es

unfoldable pub insert : Text → Text → ℕ → List Entry → List Entry
insert user asset n [] = record { user_address = user; asset = asset; amount = n } ∷ []
insert user asset n (e ∷ es) =
    if is_entry user asset e then record e { amount = n } ∷ es else e ∷ insert user asset n es

unfoldable pub remove : Text → Text → List Entry → List Entry
remove user asset es = retain (λ e. not (is_entry user asset e)) es

unfoldable pub new : PendingLedger
new = record { balances = []; poisoned = Bool.false }

abbrev with_lock : {A : Type 0} → PendingLedger → A → Option A
with_lock l a = if l.poisoned then none else some a

unfoldable pub add_pending_intent : PendingLedger → Text → Text → ℕ → Option PendingLedger
add_pending_intent l user asset amount =
    let current = unwrap_or (get user asset l.balances) 0 in
    with_lock l
      (record l { balances = insert user asset (wrap_u128 (current + amount)) l.balances })

unfoldable pub remove_pending_intent : PendingLedger → Text → Text → ℕ → Option PendingLedger
remove_pending_intent l user asset amount =
    let current = unwrap_or (get user asset l.balances) 0 in
    with_lock l (
      if leb amount current
      then record l { balances = insert user asset (current - amount) l.balances }
      else record l { balances = remove user asset l.balances })

unfoldable pub get_pending_balance : PendingLedger → Text → Text → Option ℕ
get_pending_balance l user asset = with_lock l (unwrap_or (get user asset l.balances) 0)

abbrev fits : ℕ → ℕ → Option ℕ → Option Bool
fits on_chain_balance amount none = none
fits on_chain_balance amount (some pending) =
    some (leb (wrap_u128 (pending + amount)) on_chain_balance)

unfoldable pub check_available_balance : PendingLedger → Text → Text → ℕ → ℕ → Option Bool
unfolding get_pending_balance
check_available_balance l user asset on_chain_balance new_intent_amount =
    fits on_chain_balance new_intent_amount (get_pending_balance l user asset)
