-- ===== src/Witnesses/Solving.antt =====
-- The theorem on the client's nonces.
use blindmarkets.Base.{
  ◌≡◌, ◌+◌, ◌^◌, ◌<◌, refl, true, false, [], ◌∷◌, some, none, codes, text_eq, if◌then◌else◌, arith,
}
use blindmarkets.Client.Nonces.{
  NonceTracker, Storage, nonce_of, put_nonce, get_next_nonce, get_current_nonce, with_persistence,
  load_nonce_map, flush,
}
use blindmarkets.Client.Nonces.Persistence.{with_persistence-get_next_nonce}

abbrev tracker : NonceTracker
tracker = record {
  nonces = record { user_address = codes "0xa1"; nonce = 6 } ∷ [];
  persistence_path = some (codes "nonces.json");
  auto_flush = true;
  poisoned = false;
}

abbrev next_tracker : NonceTracker
next_tracker = record tracker { nonces = record { user_address = codes "0xa1"; nonce = 7 } ∷ [] }

abbrev storage : Storage
storage = record { files = λ p. none; read_fails = λ p. false; write_fails = λ p. false }

abbrev written : Storage
written = record storage {
  files = λ p. if text_eq p (codes "nonces.json") then some next_tracker.nonces else none;
}

given : get_next_nonce (codes "0xa1") tracker storage ≡ (some 7, next_tracker, written)
unfolding get_next_nonce flush nonce_of put_nonce text_eq
given = refl

reloaded : with_persistence (codes "nonces.json") true written ≡ some next_tracker
unfolding with_persistence load_nonce_map text_eq
reloaded = refl

room_left : nonce_of (codes "0xa1") tracker.nonces + 1 < 2 ^ 64
unfolding nonce_of text_eq
room_left = omega arith

with_persistence-get_next_nonce_example :
    (7 ≡ nonce_of (codes "0xa1") tracker.nonces + 1)
    × (get_current_nonce (codes "0xd7") next_tracker
        ≡ some (
            if text_eq (codes "0xa1") (codes "0xd7")
            then 7
            else nonce_of (codes "0xd7") tracker.nonces))
    × (get_current_nonce (codes "0xd7") next_tracker
        ≡ some (
            if text_eq (codes "0xa1") (codes "0xd7")
            then 7
            else nonce_of (codes "0xd7") tracker.nonces))
    × (written.files (codes "other.json") ≡ (
        if text_eq (codes "other.json") (codes "nonces.json")
        then some next_tracker.nonces
        else storage.files (codes "other.json")))
with_persistence-get_next_nonce_example =
    with_persistence-get_next_nonce (codes "0xa1") (codes "0xd7") (codes "nonces.json")
      (codes "other.json") true tracker next_tracker next_tracker storage written 7 refl refl
      room_left given reloaded
