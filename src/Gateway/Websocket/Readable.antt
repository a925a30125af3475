-- ===== src/Gateway/Websocket/Readable.antt =====
-- What a solver reads of the messages that the gateway encrypts for it.
use blindmarkets.Base.{
  ℕ, suc, ◌≡◌, refl, ap, List, [], ◌∷◌, ◌++◌, Option, none, some, Text, length, retain, arith,
}
use blindmarkets.Gateway.Types.{Intent, Db}
use blindmarkets.Gateway.Crypto.{Bytes, EncryptionPayload, decode_key_32, encrypt_for_solver}
use blindmarkets.Gateway.Env.{Env}
use blindmarkets.Client.Encryption.{hex_text}
use blindmarkets.Client.Delivery.{IsSound}
use blindmarkets.Solver.Monitor.{decrypt_bytes, solver_public_key}
use blindmarkets.Solver.Reception.{decrypt_bytes-encrypt_for_solver, decode_key_32-published}
use blindmarkets.Gateway.Websocket.{
  SolverMessage, connected, intent, batch, ping, is_replayed, notification, sealed, seal, seal_row,
  push, replay_rows, replay_pending_intents,
}
use blindmarkets.Gateway.Websocket.Feed.{
  Notice, greeting, alive, row_notice, stored_notices, found_notices, greet, give, give_broadcast,
  give_waiting, follow, follow_all, begin,
}
use blindmarkets.Gateway.Websocket.Feed

-- The solver reads the notice in the message: an intent's ids are in clear, and its text deciphers to
-- the plaintext.
abbrev pub Reads : Env → Text → SolverMessage → Notice → Type 0
Reads env solver_hex (connected _) greeting = Unit
Reads env solver_hex (ping _) alive = Unit
Reads env solver_hex (batch b c n d) (Feed.batch b' c' n' d') =
    (b ≡ b') × (c ≡ c') × (n ≡ n') × (d ≡ d')
Reads env solver_hex (intent m) (Feed.intent intent_id batch_id plaintext) =
    (m.intent_id ≡ intent_id)
    × (m.batch_id ≡ batch_id)
    × (decrypt_bytes env.primitives solver_hex m.encrypted_data m.gateway_public_key
        ≡ some plaintext)
Reads env solver_hex _ _ = ⊥

abbrev pub ReadsAll : Env → Text → List SolverMessage → List Notice → Type 0
ReadsAll env solver_hex [] [] = Unit
ReadsAll env solver_hex (m ∷ ms) (n ∷ ns) = Reads env solver_hex m n × ReadsAll env solver_hex ms ns
ReadsAll env solver_hex _ _ = ⊥

-- The encryption of a text with a nonce of 12 bytes does not fail.
pub record Seals (env : Env) : Type 0 where
  pub seals :
      (key nonce plaintext : Bytes)
      → length nonce ≡ 12
      → (c : Bytes) × (env.primitives.aes_encrypt key nonce plaintext ≡ some c)

-- A solver that has published the key of its private key, and the gateway's keys and primitives.
pub record IsReader (env : Env) (solver_hex own : Text) : Type 0 where
  pub gateway_private : Bytes
  pub solver_private : Bytes
  pub sound : IsSound env.primitives
  pub sealing : Seals env
  pub gateway_key :
      decode_key_32 env.primitives env.config.gateway_private_key ≡ some gateway_private
  pub solver_key : decode_key_32 env.primitives solver_hex ≡ some solver_private
  pub published : solver_public_key env.primitives solver_hex ≡ some own

module _ (env : Env) (solver_hex : Text) where
  pub ReadsAll-append :
      (ms ms' : List SolverMessage) (ns ns' : List Notice)
      → ReadsAll env solver_hex ms ns
      → ReadsAll env solver_hex ms' ns'
      → ReadsAll env solver_hex (ms ++ ms') (ns ++ ns')
  ReadsAll-append [] ms' [] ns' h k = k
  ReadsAll-append (m ∷ ms) ms' (n ∷ ns) ns' (h, hs) k = (h, ReadsAll-append ms ms' ns ns' hs k)
  ReadsAll-append [] ms' (n ∷ ns) ns' h k = absurd h
  ReadsAll-append (m ∷ ms) ms' [] ns' h k = absurd h

module _ (env : Env) (solver_hex own : Text) (r : IsReader env solver_hex own) where
  open r use {gateway_private, solver_private, sound, sealing, gateway_key, solver_key, published}

  encrypted :
      (nonce plaintext : Bytes)
      → length nonce ≡ 12
      → (payload : EncryptionPayload) × (encrypt_for_solver env.primitives nonce plaintext
            env.config.gateway_private_key own
          ≡ some payload)
  unfolding encrypt_for_solver
  encrypted nonce plaintext twelve =
      let p = env.primitives in
      let readable =
        decode_key_32-published p solver_private solver_hex own sound solver_key published in
      let (c, sealed_to) =
        sealing.seals (p.diffie_hellman gateway_private (p.public_key solver_private)) nonce
          plaintext twelve in
      (
        record {
          ciphertext_hex = hex_text p (nonce ++ c);
          sender_public_key_hex = hex_text p (p.public_key gateway_private);
        },
        ground (arith, gateway_key, readable, sealed_to),
      )

  pub seal-Reads :
      (intent_id batch_id : Text) (nonce plaintext : Bytes) (stamp : ℕ)
      → length nonce ≡ 12
      → (m : SolverMessage) × (seal env own intent_id batch_id nonce stamp plaintext ≡ some m)
        × Reads env solver_hex m (Feed.intent intent_id batch_id plaintext)
  unfolding seal
  seal-Reads intent_id batch_id nonce plaintext stamp twelve =
      let (payload, e) = encrypted nonce plaintext twelve in
      (
        notification intent_id batch_id stamp payload,
        ap (sealed intent_id batch_id stamp) e,
        (
          refl,
          refl,
          decrypt_bytes-encrypt_for_solver env.primitives nonce plaintext gateway_private
              solver_private env.config.gateway_private_key solver_hex own payload sound twelve
              gateway_key solver_key published e,
        ),
      )

  replay_row-ReadsAll :
      (row : Intent) (found : Option Bytes) (nonce : Bytes) (stamp : ℕ) (ms : List SolverMessage)
      (ns : List Notice)
      → length nonce ≡ 12
      → ReadsAll env solver_hex ms ns
      → ReadsAll env solver_hex
          (push (seal_row env own nonce stamp row found) ms)
          (row_notice row found ns)
  replay_row-ReadsAll row none nonce stamp ms ns twelve h = h
  replay_row-ReadsAll row (some plaintext) nonce stamp ms ns twelve h =
      let (m, e, reads) = seal-Reads row.intent_id row.batch_id nonce plaintext stamp twelve in
      rw e (reads, h)

  replay_rows-ReadsAll :
      (nonces : ℕ → Bytes) (stamps : ℕ → ℕ) (i : ℕ) (rows : List Intent)
      → ((n : ℕ) → length (nonces n) ≡ 12)
      → ReadsAll env solver_hex (replay_rows env own nonces stamps i rows) (stored_notices env rows)
  unfolding replay_rows stored_notices
  replay_rows-ReadsAll nonces stamps i [] twelve = tt
  replay_rows-ReadsAll nonces stamps i (row ∷ rows) twelve =
      replay_row-ReadsAll row _ (nonces i) (stamps i) _ _ (twelve i)
        (replay_rows-ReadsAll nonces stamps (suc i) rows twelve)

  pub replay_pending-ReadsAll :
      (nonces : ℕ → Bytes) (stamps : ℕ → ℕ) (found : Option Db)
      → ((n : ℕ) → length (nonces n) ≡ 12)
      → ReadsAll env solver_hex
          (replay_pending_intents env own nonces stamps found)
          (found_notices env found)
  unfolding replay_pending_intents found_notices
  replay_pending-ReadsAll nonces stamps none twelve = tt
  replay_pending-ReadsAll nonces stamps (some db) twelve =
      replay_rows-ReadsAll nonces stamps 0 (retain is_replayed db.intents) twelve
