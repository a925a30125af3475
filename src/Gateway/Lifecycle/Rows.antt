-- ===== src/Gateway/Lifecycle/Rows.antt =====
-- Statements on the rows of `intents` as steps of each row.
use mathlib.Core.Path.{subst}
use blindmarkets.Base.{
  ◌≡◌, refl, ap, ◌∙◌, Bool, true, false, ◌++◌, List, [], ◌∷◌, some, Text, text_eq, text_eq_iff, any,
  Bool-cases, inl, inr, update_where, find_where, if◌then◌else◌, arith,
}
use blindmarkets.Gateway.Types.{Intent}
use blindmarkets.Gateway.Table.{is_intent}
use blindmarkets.Gateway.Env.{Env, decipher}
use blindmarkets.Gateway.Batches.Release.{Opens, AllOpen, none_open, one_open}
use blindmarkets.Gateway.Lifecycle.{
  stays, identity, RowStep, starts, Evolves, nothing, added, kept, Distinct, no_rows, one_more,
  Step,
}

RowStep-refl : (row : Intent) → RowStep row row
RowStep-refl row = record { same = refl; moves = stays }

Evolves-refl : (env : Env) (rows : List Intent) → Evolves env rows rows
Evolves-refl env [] = nothing
Evolves-refl env (row ∷ rows) = kept (RowStep-refl row) (Evolves-refl env rows)

pub Step-refl : (env : Env) (rows : List Intent) → Distinct rows → Step env rows rows
Step-refl env rows h = record { evolves = Evolves-refl env rows; distinct = h }

Evolves-append :
    (env : Env) (rows : List Intent) (row : Intent)
    → Opens env row
    → starts row.status ≡ true
    → Evolves env rows (rows ++ row ∷ [])
Evolves-append env [] row h k = added row h k
Evolves-append env (r ∷ rows) row h k = kept (RowStep-refl r) (Evolves-append env rows row h k)

any_id-append :
    (id : Text) (rows : List Intent) (row : Intent)
    → any (is_intent id) rows ≡ false
    → text_eq row.intent_id id ≡ false
    → any (is_intent id) (rows ++ row ∷ []) ≡ false
unfolding any
any_id-append id [] row h k = ground arith
any_id-append id (r ∷ rows) row h k = ground (arith, any_id-append id rows row)

Distinct-append :
    (rows : List Intent) (row : Intent)
    → any (is_intent row.intent_id) rows ≡ false
    → Distinct rows
    → Distinct (rows ++ row ∷ [])
unfolding any
Distinct-append [] row h no_rows = one_more refl no_rows
Distinct-append (r ∷ rows) row h (one_more k hs) =
    one_more
      (any_id-append r.intent_id rows row k (
        ground
          (arith, text_eq_iff row.intent_id r.intent_id, text_eq_iff r.intent_id row.intent_id)))
      (Distinct-append rows row (ground arith) hs)

-- A new row at the end.
pub Step-append :
    (env : Env) (rows : List Intent) (row : Intent)
    → any (is_intent row.intent_id) rows ≡ false
    → Opens env row
    → starts row.status ≡ true
    → Distinct rows
    → Step env rows (rows ++ row ∷ [])
Step-append env rows row new h k hs = record {
  evolves = Evolves-append env rows row h k;
  distinct = Distinct-append rows row new hs;
}

module _ (env : Env) (p : Intent → Bool) (f : Intent → Intent) where
  any_id-update :
      (id : Text) (rows : List Intent)
      → ((row : Intent) → (f row).intent_id ≡ row.intent_id)
      → any (is_intent id) (update_where p f rows) ≡ any (is_intent id) rows
  unfolding any update_where
  any_id-update id [] h = refl
  any_id-update id (row ∷ rows) h = ground (arith, h row, any_id-update id rows h)

  Distinct-update :
      (rows : List Intent)
      → ((row : Intent) → (f row).intent_id ≡ row.intent_id)
      → Distinct rows
      → Distinct (update_where p f rows)
  unfolding update_where
  Distinct-update [] h no_rows = no_rows
  Distinct-update (row ∷ rows) h (one_more k hs) =
      one_more
        (ground (
          arith,
          any_id-update row.intent_id rows h,
          any_id-update (f row).intent_id rows h,
          h row,
          k,
        ))
        (Distinct-update rows h hs)

  Evolves-update :
      (rows : List Intent)
      → ((row : Intent) → p row ≡ true → RowStep row (f row))
      → Evolves env rows (update_where p f rows)
  unfolding update_where
  Evolves-update [] h = nothing
  Evolves-update (row ∷ rows) h = kept (one (p row) refl) (Evolves-update rows h)
    where
      one : (b : Bool) → p row ≡ b → RowStep row (if b then f row else row)
      one true q = h row q
      one false q = RowStep-refl row

  -- A statement on many rows.
  pub Step-update :
      (rows : List Intent)
      → ((row : Intent) → (f row).intent_id ≡ row.intent_id)
      → ((row : Intent) → p row ≡ true → RowStep row (f row))
      → Distinct rows
      → Step env rows (update_where p f rows)
  Step-update rows same step h = record {
    evolves = Evolves-update rows step;
    distinct = Distinct-update rows same h;
  }

update_none :
    (p : Intent → Bool) (f : Intent → Intent) (rows : List Intent)
    → any p rows ≡ false
    → update_where p f rows ≡ rows
unfolding any update_where
update_none p f [] h = refl
update_none p f (row ∷ rows) h = ground (arith, update_none p f rows)

Evolves-update_id :
    (env : Env) (id : Text) (f : Intent → Intent) (rows : List Intent) (row : Intent)
    → find_where (is_intent id) rows ≡ some row
    → RowStep row (f row)
    → Distinct rows
    → Evolves env rows (update_where (is_intent id) f rows)
unfolding update_where find_where
Evolves-update_id env id f (r ∷ rows) row found step (one_more k hs) =
    elim (Bool-cases (is_intent id r)) [
      | inl t ↦
          let alone : update_where (is_intent id) f rows ≡ rows =
            update_none (is_intent id) f rows (ground (arith, text_eq_iff r.intent_id id, k)) in
          rw t rw alone
            (kept (subst (λ x. RowStep x (f x)) (ground arith) step) (Evolves-refl env rows))
      | inr e ↦
          rw e (kept (RowStep-refl r) (Evolves-update_id env id f rows row (ground arith) step hs))
    ]
Evolves-update_id env id f [] row found step h = absurd (ground arith)

-- A statement on the row of one id.
pub Step-update_id :
    (env : Env) (id : Text) (f : Intent → Intent) (rows : List Intent) (row : Intent)
    → ((r : Intent) → (f r).intent_id ≡ r.intent_id)
    → find_where (is_intent id) rows ≡ some row
    → RowStep row (f row)
    → Distinct rows
    → Step env rows (update_where (is_intent id) f rows)
Step-update_id env id f rows row same found step h = record {
  evolves = Evolves-update_id env id f rows row found step h;
  distinct = Distinct-update env (is_intent id) f rows same h;
}

-- What an old row keeps.
pub identity-Opens :
    (env : Env) (row row' : Intent) → identity row' ≡ identity row → Opens env row → Opens env row'
identity-Opens env row row' same h = record {
  session_key = h.session_key;
  has_key = ap (λ (r : Intent). r.encrypted_session_key) same ∙ h.has_key;
  plaintext = h.plaintext;
  deciphered =
      ap (λ (r : Intent). decipher env r.ciphertext h.session_key r.client_public_key) same
      ∙ h.deciphered;
  intent = h.intent;
  parsed = h.parsed;
  asset = ap (λ (r : Intent). r.asset_in) same ∙ h.asset;
  amount_fits = ap (λ (r : Intent). r.amount) same ∙ h.amount_fits;
}

pub Evolves-AllOpen :
    (env : Env) (rows rows' : List Intent)
    → Evolves env rows rows'
    → AllOpen env rows
    → AllOpen env rows'
Evolves-AllOpen env _ _ nothing h = none_open
Evolves-AllOpen env _ _ (added row k s) h = one_open k none_open
Evolves-AllOpen env _ _ (kept {row} {row'} step e) (one_open h hs) =
    one_open (identity-Opens env row row' step.same h) (Evolves-AllOpen env _ _ e hs)
