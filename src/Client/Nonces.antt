-- ===== src/Client/Nonces.antt =====
-- client-sdk/src/nonce_tracker.rs. The map is an association list; a u64 sum wraps. A file is the
-- map that its JSON text stands for; reading and writing one may fail. Every error is none.
pub mod Persistence
use blindmarkets.Base.{
  ℕ, ◌+◌, ◌%◌, ◌^◌, Bool, true, false, List, [], ◌∷◌, Option, none, some, Text, text_eq,
  if◌then◌else◌,
}

pub record NonceEntry : Type 0 where
  pub user_address : Text
  pub nonce : ℕ

pub record NonceTracker : Type 0 where
  pub nonces : List NonceEntry
  pub persistence_path : Option Text
  pub auto_flush : Bool
  pub poisoned : Bool

-- The file at each path, where there is one, and whether reading and writing it fail.
pub record Storage : Type 0 where
  pub files : Text → Option (List NonceEntry)
  pub read_fails : Text → Bool
  pub write_fails : Text → Bool

unfoldable pub nonce_of : Text → List NonceEntry → ℕ
nonce_of user [] = 0
nonce_of user (e ∷ es) = if text_eq e.user_address user then e.nonce else nonce_of user es

unfoldable pub put_nonce : Text → ℕ → List NonceEntry → List NonceEntry
put_nonce user n [] = record { user_address = user; nonce = n } ∷ []
put_nonce user n (e ∷ es) =
    if text_eq e.user_address user then record e { nonce = n } ∷ es else e ∷ put_nonce user n es

unfoldable pub new : NonceTracker
new = record { nonces = []; persistence_path = none; auto_flush = false; poisoned = false }

-- A file that is not there is not read.
abbrev load_file : Bool → Option (List NonceEntry) → Option (List NonceEntry)
load_file read_fails none = some []
load_file read_fails (some nonces) = if read_fails then none else some nonces

unfoldable pub load_nonce_map : Text → Storage → Option (List NonceEntry)
load_nonce_map path s = load_file (s.read_fails path) (s.files path)

abbrev tracker_at : Text → Bool → Option (List NonceEntry) → Option NonceTracker
tracker_at path auto_flush none = none
tracker_at path auto_flush (some nonces) = some (record {
  nonces = nonces;
  persistence_path = some path;
  auto_flush = auto_flush;
  poisoned = false;
})

unfoldable pub with_persistence : Text → Bool → Storage → Option NonceTracker
unfolding load_nonce_map
with_persistence path auto_flush s = tracker_at path auto_flush (load_nonce_map path s)

abbrev write_file :
    Text → List NonceEntry → (Text → Option (List NonceEntry)) → Text → Option (List NonceEntry)
write_file path nonces files other = if text_eq other path then some nonces else files other

abbrev write_at : Option Text → NonceTracker → Storage → Option Storage
write_at none t s = some s
write_at (some path) t s =
    if t.poisoned
    then none
    else if s.write_fails path
    then none
    else some (record s { files = write_file path t.nonces s.files })

unfoldable pub flush : NonceTracker → Storage → Option Storage
flush t s = write_at t.persistence_path t s

abbrev after_flush {ℓ} :
    {A : Type ℓ} → A → NonceTracker → Storage → Option Storage → Option A × NonceTracker × Storage
after_flush a t s none = (none, t, s)
after_flush a t s (some s') = (some a, t, s')

-- The value, once the changed map is flushed if it is to be. Where that fails, the change stays.
abbrev store_and : {A : Type 0} → A → NonceTracker → Storage → Option A × NonceTracker × Storage
store_and a t s = if t.auto_flush then after_flush a t s (flush t s) else (some a, t, s)

unfoldable pub get_next_nonce : Text → NonceTracker → Storage → Option ℕ × NonceTracker × Storage
unfolding flush
get_next_nonce user t s =
    let next = (nonce_of user t.nonces + 1) % 2 ^ 64 in
    if t.poisoned
    then (none, t, s)
    else store_and next (record t { nonces = put_nonce user next t.nonces }) s

unfoldable pub get_current_nonce : Text → NonceTracker → Option ℕ
get_current_nonce user t = if t.poisoned then none else some (nonce_of user t.nonces)

unfoldable pub set_nonce :
    Text → ℕ → NonceTracker → Storage → Option (Unit {0}) × NonceTracker × Storage
unfolding flush
set_nonce user n t s =
    if t.poisoned
    then (none, t, s)
    else store_and tt (record t { nonces = put_nonce user n t.nonces }) s
