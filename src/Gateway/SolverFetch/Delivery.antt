-- ===== src/Gateway/SolverFetch/Delivery.antt =====
-- What a solver receives, and can read.
use mathlib.Core.Path.{subst₂}
use blindmarkets.Base.{
  ℕ, suc, ◌≡◌, refl, ap, ◌∙◌, inl, inr, Option, none, some, List, [], ◌∷◌, Text, length, retain,
  Option-cases,
}
use blindmarkets.Gateway.Types.{Intent, Db}
use blindmarkets.Gateway.Exec.{ok, World, pure}
use blindmarkets.Gateway.Exec.Rules.{>>=-eq-ok, query_ok, Quiet-query, ok-injective}
use blindmarkets.Gateway.Crypto.{Bytes, EncryptionPayload, decode_key_32, encrypt_for_solver}
use blindmarkets.Gateway.Env.{Env, Call}
use blindmarkets.Gateway.SolverFetch.{
  SolverEncryptedIntent, ids_of, wanted, item_of, sealed_item, plaintext_of, reencrypt, push,
  reencrypt_all, solver_key_of, get_solver_batch_intents,
}
use blindmarkets.Client.Delivery.{IsSound}
use blindmarkets.Solver.Monitor.{decrypt_bytes, solver_public_key}
use blindmarkets.Solver.Reception.{decrypt_bytes-encrypt_for_solver}

-- The answer for the rows from position `i` on: each that deciphers is there in its place, under its
-- id, and the solver reads its plaintext; one that does not decipher is skipped, and one whose
-- plaintext cannot be encrypted for this solver with the nonce of its position.
pub data Delivered (env : Env) (solver_hex key : Text) (nonces : ℕ → Bytes)
    : ℕ → List Intent → List SolverEncryptedIntent → Type 0 where
  nothing : {i : ℕ} → Delivered env solver_hex key nonces i [] []
  unreadable :
      {i : ℕ} {row : Intent} {rows : List Intent} {items : List SolverEncryptedIntent}
      → plaintext_of env row row.encrypted_session_key ≡ none
      → Delivered env solver_hex key nonces (suc i) rows items
      → Delivered env solver_hex key nonces i (row ∷ rows) items
  unsealed :
      {i : ℕ} {row : Intent} {rows : List Intent} {items : List SolverEncryptedIntent}
      (plaintext : Bytes)
      → plaintext_of env row row.encrypted_session_key ≡ some plaintext
      → encrypt_for_solver env.primitives (nonces i) plaintext env.config.gateway_private_key key
        ≡ none
      → Delivered env solver_hex key nonces (suc i) rows items
      → Delivered env solver_hex key nonces i (row ∷ rows) items
  sent :
      {i : ℕ} {row : Intent} {rows : List Intent} {item : SolverEncryptedIntent}
      {items : List SolverEncryptedIntent} (plaintext : Bytes)
      → plaintext_of env row row.encrypted_session_key ≡ some plaintext
      → item.intent_id ≡ row.intent_id
      → decrypt_bytes env.primitives solver_hex item.encrypted_data item.gateway_public_key
        ≡ some plaintext
      → Delivered env solver_hex key nonces (suc i) rows items
      → Delivered env solver_hex key nonces i (row ∷ rows) (item ∷ items)

reencrypt_unreadable :
    (env : Env) (key : Text) (nonce : Bytes) (row : Intent)
    → plaintext_of env row row.encrypted_session_key ≡ none
    → reencrypt env key nonce row ≡ none
unfolding reencrypt
reencrypt_unreadable env key nonce row q = rw q refl

reencrypt_unsealed :
    (env : Env) (key : Text) (nonce plaintext : Bytes) (row : Intent)
    → plaintext_of env row row.encrypted_session_key ≡ some plaintext
    → encrypt_for_solver env.primitives nonce plaintext env.config.gateway_private_key key ≡ none
    → reencrypt env key nonce row ≡ none
unfolding reencrypt
reencrypt_unsealed env key nonce plaintext row q e = rw q (ap (sealed_item row.intent_id) e)

reencrypt_sent :
    (env : Env) (key : Text) (nonce plaintext : Bytes) (row : Intent) (payload : EncryptionPayload)
    → plaintext_of env row row.encrypted_session_key ≡ some plaintext
    → encrypt_for_solver env.primitives nonce plaintext env.config.gateway_private_key key
      ≡ some payload
    → reencrypt env key nonce row ≡ some (item_of row.intent_id payload)
unfolding reencrypt
reencrypt_sent env key nonce plaintext row payload q e = rw q (ap (sealed_item row.intent_id) e)

module _ (env : Env) (solver_hex key : Text) (gateway_private solver_private : Bytes)
    (sound : IsSound env.primitives)
    (gateway_key : decode_key_32 env.primitives env.config.gateway_private_key
      ≡ some gateway_private)
    (solver_key : decode_key_32 env.primitives solver_hex ≡ some solver_private)
    (published : solver_public_key env.primitives solver_hex ≡ some key) where
  deliver_row :
      (nonces : ℕ → Bytes) (i : ℕ) (row : Intent) (rows : List Intent)
      (items : List SolverEncryptedIntent)
      → length (nonces i) ≡ 12
      → Delivered env solver_hex key nonces (suc i) rows items
      → Delivered env solver_hex key nonces i
          (row ∷ rows)
          (push (reencrypt env key (nonces i) row) items)
  deliver_row nonces i row rows items twelve rest =
      elim (Option-cases (plaintext_of env row row.encrypted_session_key)) [
        | inl q ↦ rw (reencrypt_unreadable env key (nonces i) row q) (unreadable q rest)
        | inr (plaintext, q) ↦
            elim (Option-cases (
              encrypt_for_solver env.primitives (nonces i) plaintext env.config.gateway_private_key
                key)) [
                  | inl e ↦
                      rw (reencrypt_unsealed env key (nonces i) plaintext row q e)
                        (unsealed plaintext q e rest)
                  | inr (payload, e) ↦
                      rw (reencrypt_sent env key (nonces i) plaintext row payload q e) (
                        sent plaintext q refl
                          (decrypt_bytes-encrypt_for_solver env.primitives (nonces i) plaintext
                            gateway_private solver_private env.config.gateway_private_key solver_hex
                            key payload sound twelve gateway_key solver_key published e)
                          rest)
                ]
      ]

  deliver_rows :
      (nonces : ℕ → Bytes) (i : ℕ) (rows : List Intent)
      → ((n : ℕ) → length (nonces n) ≡ 12)
      → Delivered env solver_hex key nonces i rows (reencrypt_all env key nonces i rows)
  unfolding reencrypt_all
  deliver_rows nonces i [] twelve = nothing
  deliver_rows nonces i (row ∷ rows) twelve =
      deliver_row nonces i row rows _ (twelve i) (deliver_rows nonces (suc i) rows twelve)

-- A solver that publishes the key of its private key, and is answered OK, receives the open intents
-- of the batch, or those that it names, in the order of the table: each that deciphers stands there
-- under its id, and the solver reads the plaintext that the gateway has read. Left out are those that
-- do not decipher, and those that the gateway cannot encrypt for the solver's key with the nonce of
-- their position. The tables are as before.
pub get_solver_batch_intents-ok :
    (env : Env) (call : Call) (nonces : ℕ → Bytes) (batch_id : Text) (intent_ids : Option Text)
    (w : World) (items : List SolverEncryptedIntent) (solver_hex : Text)
    (gateway_private solver_private : Bytes)
    → IsSound env.primitives
    → decode_key_32 env.primitives env.config.gateway_private_key ≡ some gateway_private
    → decode_key_32 env.primitives solver_hex ≡ some solver_private
    → solver_public_key env.primitives solver_hex ≡ some (solver_key_of call)
    → ((n : ℕ) → length (nonces n) ≡ 12)
    → (get_solver_batch_intents env call nonces batch_id intent_ids w).0 ≡ ok items
    → Delivered env solver_hex
        (solver_key_of call)
        nonces
        0
        (retain (wanted (ids_of intent_ids) batch_id) w.db.intents)
        items
      × ((get_solver_batch_intents env call nonces batch_id intent_ids w).1.db ≡ w.db)
unfolding get_solver_batch_intents pure
get_solver_batch_intents-ok env call nonces batch_id intent_ids w items solver_hex gateway_private
      solver_private sound gk sk published twelve h =
    let (_, q1, h1, e1) = >>=-eq-ok _ _ w h in
    let (_, q2, h2, e2) = >>=-eq-ok _ _ w h1 in
    let (_, q3, h3, e3) = >>=-eq-ok _ _ w h2 in
    let (rows, q4, h4, e4) = >>=-eq-ok _ _ w h3 in
    let pick = λ (d : Db). retain (wanted (ids_of intent_ids) batch_id) d.intents in
    let delivered =
      deliver_rows env solver_hex (solver_key_of call) gateway_private solver_private sound gk sk
        published nonces 0 rows twelve in
    (
      subst₂ (Delivered env solver_hex (solver_key_of call) nonces 0) (query_ok pick w q4)
          (ok-injective h4) delivered,
      e1 ∙ e2 ∙ e3 ∙ e4 ∙ (Quiet-query pick).at w,
    )
