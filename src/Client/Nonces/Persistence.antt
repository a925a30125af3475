-- ===== src/Client/Nonces/Persistence.antt =====
-- A nonce that was given out is not given out again, not after a restart either.
use blindmarkets.Base.{
  ℕ, ◌+◌, ◌%◌, ◌^◌, ◌<◌, ◌≡◌, Bool, true, List, [], ◌∷◌, some, Text, text_eq, text_eq_iff,
  text_eq_refl, if◌then◌else◌, arith,
}
use blindmarkets.Client.Nonces.{
  NonceEntry, NonceTracker, Storage, nonce_of, put_nonce, with_persistence, get_next_nonce,
  get_current_nonce,
}

nonce_of-put_nonce :
    (u u' : Text) (n : ℕ) (es : List NonceEntry)
    → nonce_of u' (put_nonce u n es) ≡ (if text_eq u u' then n else nonce_of u' es)
unfolding nonce_of put_nonce
nonce_of-put_nonce u u' n [] = ground arith
nonce_of-put_nonce u u' n (e ∷ es) = ground (
  arith,
  text_eq_iff e.user_address u,
  text_eq_iff e.user_address u',
  text_eq_iff u u',
  nonce_of-put_nonce u u' n es,
)

-- A nonce that a tracker with a file and automatic flushing gives out is one more than the user's
-- last, and stands in the file: a tracker that is made from the file at the same path holds it, and
-- the nonces of all other users as they were. The files at all other paths are as before.
pub with_persistence-get_next_nonce :
    (user user' path path' : Text) (flushes : Bool) (t t' again : NonceTracker) (s s' : Storage)
    (n : ℕ)
    → t.auto_flush ≡ true
    → t.persistence_path ≡ some path
    → nonce_of user t.nonces + 1 < 2 ^ 64
    → get_next_nonce user t s ≡ (some n, t', s')
    → with_persistence path flushes s' ≡ some again
    → (n ≡ nonce_of user t.nonces + 1)
      × (get_current_nonce user' t'
          ≡ some (if text_eq user user' then n else nonce_of user' t.nonces))
      × (get_current_nonce user' again
          ≡ some (if text_eq user user' then n else nonce_of user' t.nonces))
      × (s'.files path' ≡ (if text_eq path' path then some t'.nonces else s.files path'))
unfolding get_next_nonce get_current_nonce with_persistence
with_persistence-get_next_nonce user user' path path' flushes t t' again s s' n auto has_path small
      given read =
    ground (
      arith,
      nonce_of-put_nonce user user' ((nonce_of user t.nonces + 1) % 2 ^ 64) t.nonces,
      text_eq_refl path,
    )
