-- ===== src/Gateway/Batches/Release.antt =====
-- What `settle_batch` releases of what is pending.
use mathlib.Core.Path.{subst}
use blindmarkets.Base.{
  ℕ, ◌+◌, ◌-◌, ◌≡◌, refl, sym, ap, ◌∙◌, Bool, true, false, ◌&&◌, List, [], ◌∷◌, some, Text, text_eq,
  text_eq_iff, if◌then◌else◌, any, retain, update_where, is_some, arith,
}
use blindmarkets.Gateway.Types.{
  Intent, IntentStatus, DecryptedIntent, PendingBalance, SettleBatchRequest, Db,
}
use blindmarkets.Gateway.Exec.{ok, World}
use blindmarkets.Gateway.Table.{
  release_pending, asset_is, in_group, sum_amounts, release_group, release_settled, mark_settled,
  update_intents, balance, pending_of,
}
use blindmarkets.Gateway.Table.Laws.{pending_of-release_pending}
use blindmarkets.Gateway.Crypto.{Bytes}
use blindmarkets.Gateway.Env.{Env, Call, decipher, parse_intent}
use blindmarkets.Gateway.Batches.{in_open_batch, settle_intents, settle_batch}
use blindmarkets.Gateway.Batches.Outcome.{Released, done, next, settle_batch-ok}

-- The columns of the row hold what its ciphertext holds.
pub record Opens (env : Env) (row : Intent) : Type 0 where
  pub session_key : Text
  pub has_key : row.encrypted_session_key ≡ some session_key
  pub plaintext : Bytes
  pub deciphered : decipher env row.ciphertext session_key row.client_public_key ≡ some plaintext
  pub intent : DecryptedIntent
  pub parsed : parse_intent env plaintext ≡ some intent
  pub asset : row.asset_in ≡ some intent.asset_in
  pub amount_fits : row.amount ≡ some intent.amount

pub data AllOpen (env : Env) : List Intent → Type 0 where
  none_open : AllOpen env []
  one_open :
      {row : Intent} {rows : List Intent}
      → Opens env row
      → AllOpen env rows
      → AllOpen env (row ∷ rows)

abbrev pub owned : Text → Text → Intent → Bool
owned user asset row = text_eq row.user_address user && asset_is row.asset_in asset

abbrev pub open_in : Text → Text → Text → Intent → Bool
open_in batch user asset row = in_open_batch batch row && owned user asset row

AllOpen-retain :
    (env : Env) (p : Intent → Bool) (rows : List Intent)
    → AllOpen env rows
    → AllOpen env (retain p rows)
unfolding retain
AllOpen-retain env p [] none_open = none_open
AllOpen-retain env p (row ∷ rows) (one_open h hs) =
    elim (p row) as (λ x. AllOpen env (if x then row ∷ retain p rows else retain p rows)) [
      | true ↦ one_open h (AllOpen-retain env p rows hs)
      | false ↦ AllOpen-retain env p rows hs
    ]

sum_amounts-retain :
    (p q : Intent → Bool) (rows : List Intent)
    → sum_amounts q (retain p rows) ≡ sum_amounts (λ row. p row && q row) rows
unfolding sum_amounts retain
sum_amounts-retain p q [] = refl
sum_amounts-retain p q (row ∷ rows) = ground (arith, sum_amounts-retain p q rows)

-- Settling turns the open rows of the batch into rows of its groups.
sum_amounts-settle :
    (b u a : Text) (rows : List Intent)
    → sum_amounts
        (in_group b u a)
        (update_where (in_open_batch b) (λ row. record row { status = IntentStatus.settled }) rows)
      ≡ sum_amounts (open_in b u a) rows + sum_amounts (in_group b u a) rows
unfolding sum_amounts update_where
sum_amounts-settle b u a [] = refl
sum_amounts-settle b u a (row ∷ rows) = ground (arith, sum_amounts-settle b u a rows)

AllOpen-settle :
    (env : Env) (b : Text) (rows : List Intent)
    → AllOpen env rows
    → AllOpen env
        (update_where (in_open_batch b) (λ row. record row { status = IntentStatus.settled }) rows)
unfolding update_where
AllOpen-settle env b [] none_open = none_open
AllOpen-settle env b (row ∷ rows) (one_open h hs) =
    one_open (settled (in_open_batch b row)) (AllOpen-settle env b rows hs)
  where
    settled :
        (x : Bool) → Opens env (if x then record row { status = IntentStatus.settled } else row)
    settled true = record {
      session_key = h.session_key;
      has_key = h.has_key;
      plaintext = h.plaintext;
      deciphered = h.deciphered;
      intent = h.intent;
      parsed = h.parsed;
      asset = h.asset;
      amount_fits = h.amount_fits;
    }
    settled false = h

Opens-once :
    (env : Env) (row : Intent) (key : Text) (plaintext : Bytes) (d : DecryptedIntent)
    → Opens env row
    → row.encrypted_session_key ≡ some key
    → decipher env row.ciphertext key row.client_public_key ≡ some plaintext
    → parse_intent env plaintext ≡ some d
    → (row.asset_in ≡ some d.asset_in) × (row.amount ≡ some d.amount)
Opens-once env row key plaintext d h has_key deciphered parsed = (
  ground (arith, h.has_key, h.deciphered, h.parsed, h.asset),
  ground (arith, h.has_key, h.deciphered, h.parsed, h.amount_fits),
)

intents-release_pending :
    (u a : Text) (n : ℕ) (db : Db) → (release_pending u a n db).intents ≡ db.intents
unfolding release_pending
intents-release_pending u a n db = refl

-- One round: the row's own amount goes, then what the others hold.
release_row :
    (row : Intent) (rows : List Intent) (asset : Text) (n : ℕ) (db : Db) (u a : Text)
    → row.asset_in ≡ some asset
    → row.amount ≡ some n
    → pending_of u a (release_pending row.user_address asset n db) - sum_amounts (owned u a) rows
      ≡ pending_of u a db - sum_amounts (owned u a) (row ∷ rows)
unfolding sum_amounts
release_row row rows asset n db u a h k =
    ground (arith, pending_of-release_pending row.user_address asset u a n db)

-- The loop releases, of one asset of one user, the sum over the rows that it runs over.
pending_of-Released :
    (env : Env) (rows : List Intent) (db db' : Db) (u a : Text)
    → Released env rows db db'
    → AllOpen env rows
    → (db'.intents ≡ db.intents)
      × (pending_of u a db' ≡ pending_of u a db - sum_amounts (owned u a) rows)
unfolding sum_amounts
pending_of-Released env [] db db' u a done none_open = (refl, omega arith)
pending_of-Released env (row ∷ rows) db db' u a (next key pt d has_key deciphered parsed rest)
      (one_open h hs) =
    let (same, left) = pending_of-Released env rows _ db' u a rest hs in
    let (asset, amount) = Opens-once env row key pt d h has_key deciphered parsed in
    (
      same ∙ intents-release_pending row.user_address d.asset_in d.amount db,
      left ∙ release_row row rows d.asset_in d.amount db u a asset amount,
    )

any_amount :
    (env : Env) (p : Intent → Bool) (rows : List Intent)
    → AllOpen env rows
    → any (λ row. p row && is_some row.amount) rows ≡ any p rows
unfolding any
any_amount env p [] none_open = refl
any_amount env p (row ∷ rows) (one_open h hs) =
    ground (arith, h.amount_fits, any_amount env p rows hs)

sum_amounts-none :
    (p : Intent → Bool) (rows : List Intent) → any p rows ≡ false → sum_amounts p rows ≡ 0
unfolding any sum_amounts
sum_amounts-none p [] h = refl
sum_amounts-none p (row ∷ rows) h = ground (arith, sum_amounts-none p rows)

-- A group's release, where no amount of it is NULL.
release_group_lem :
    (env : Env) (b : Text) (rows : List Intent) (pb : PendingBalance)
    → AllOpen env rows
    → release_group b rows pb ≡ record pb {
      pending_amount =
          pb.pending_amount - sum_amounts (in_group b pb.user_address pb.asset_address) rows;
    }
unfolding release_group
release_group_lem env b rows pb h =
    let p = in_group b pb.user_address pb.asset_address in
    ground (arith, any_amount env p rows h, sum_amounts-none p rows)

balance-release_group :
    (env : Env) (b u a : Text) (rows : List Intent) (pbs : List PendingBalance)
    → AllOpen env rows
    → balance u a (update_where (λ _. true) (release_group b rows) pbs)
      ≡ balance u a pbs - sum_amounts (in_group b u a) rows
unfolding balance update_where
balance-release_group env b u a rows [] h = omega arith
balance-release_group env b u a rows (pb ∷ pbs) h = ground (
  arith,
  release_group_lem env b rows pb h,
  text_eq_iff pb.user_address u,
  text_eq_iff pb.asset_address a,
  balance-release_group env b u a rows pbs h,
)

pending_of-settled :
    (env : Env) (p : SettleBatchRequest) (db : Db) (u a : Text)
    → AllOpen env db.intents
    → pending_of u a (release_settled p.batch_id (mark_settled p (settle_intents p.batch_id db)))
      ≡ pending_of u a db
        - (sum_amounts (open_in p.batch_id u a) db.intents
            + sum_amounts (in_group p.batch_id u a) db.intents)
unfolding pending_of release_settled mark_settled settle_intents update_intents
pending_of-settled env p db u a h =
    balance-release_group env p.batch_id u a _ db.pending_balances
      (AllOpen-settle env p.batch_id db.intents h)
    ∙ ap (λ n. balance u a db.pending_balances - n) (sum_amounts-settle p.batch_id u a db.intents)

-- A settled batch, where every row opens to its own columns: of each asset of each user the amounts
-- of the open intents of the batch are released twice, by the loop and by the last statement, and
-- the amounts of the intents of the batch that were settled before once more.
pub settle_batch_released :
    (env : Env) (call : Call) (p : SettleBatchRequest) (w : World) (u a : Text)
    → AllOpen env w.db.intents
    → (settle_batch env call p w).0 ≡ ok tt
    → let owed = sum_amounts (open_in p.batch_id u a) w.db.intents in
      pending_of u a (settle_batch env call p w).1.db
      ≡ pending_of u a w.db - owed - (owed + sum_amounts (in_group p.batch_id u a) w.db.intents)
settle_batch_released env call p w u a h answer =
    let (db, released, tables) = settle_batch-ok env call p w answer in
    let open_rows = AllOpen-retain env (in_open_batch p.batch_id) w.db.intents h in
    let (same, left) = pending_of-Released env _ w.db db u a released open_rows in
    let last = pending_of-settled env p db u a (subst (AllOpen env) (sym same) h) in
    let again = λ (rows : List Intent).
      sum_amounts (open_in p.batch_id u a) rows + sum_amounts (in_group p.batch_id u a) rows in
    let first = sum_amounts-retain (in_open_batch p.batch_id) (owned u a) w.db.intents in
    ap (pending_of u a) tables
    ∙ last
    ∙ ap (λ rows. pending_of u a db - again rows) same
    ∙ ap (λ n. n - again w.db.intents) (left ∙ ap (λ n. pending_of u a w.db - n) first)
