-- ===== src/Gateway/Lifecycle/Reach.antt =====
-- What holds of the rows over any sequence of requests.
use mathlib.Core.Path.{subst}
use blindmarkets.Base.{
  Bool-cases, ◌≡◌, refl, ap, ◌∙◌, inl, inr, Bool, true, false, List, ◌∷◌, Text, find_where, some,
  arith,
}
use blindmarkets.Gateway.Types.{Intent, IntentStatus, settled, canceled}
use blindmarkets.Gateway.Exec.{World}
use blindmarkets.Gateway.Table.{is_intent, find_intent}
use blindmarkets.Gateway.Env.{Env}
use blindmarkets.Gateway.Batches.Release.{AllOpen}
use blindmarkets.Gateway.Lifecycle.{
  Reaches, here, after, StatusStep, stays, enters_auction, leaves_auction, settles, cancels,
  activates, identity, RowStep, Evolves, nothing, added, kept, Distinct,
}
use blindmarkets.Gateway.Lifecycle.Rows.{Evolves-AllOpen}
use blindmarkets.Gateway.Lifecycle.Handlers.{handle-Step}

abbrev pub is_final : IntentStatus → Bool
is_final settled = true
is_final canceled = true
is_final _ = false

-- A row later on: the same intent, and with the same status where that was final.
pub record Persists (row row' : Intent) : Type 0 where
  pub same : identity row' ≡ identity row
  pub final : is_final row.status ≡ true → row'.status ≡ row.status

StatusStep-final : (s s' : IntentStatus) → StatusStep s s' → is_final s ≡ true → s' ≡ s
StatusStep-final _ _ stays h = refl
StatusStep-final _ _ enters_auction h = absurd (ground arith)
StatusStep-final _ _ leaves_auction h = absurd (ground arith)
StatusStep-final s _ (settles k) h = absurd (ground arith)
StatusStep-final s _ (cancels k) h = absurd (ground arith)
StatusStep-final s _ (activates k) h = absurd (ground arith)

same_id : (row row' : Intent) → RowStep row row' → row'.intent_id ≡ row.intent_id
same_id row row' step = ap (λ (r : Intent). r.intent_id) step.same

Evolves-find :
    (env : Env) (id : Text) (rows rows' : List Intent) (row : Intent)
    → Evolves env rows rows'
    → find_where (is_intent id) rows ≡ some row
    → (row' : Intent) × (find_where (is_intent id) rows' ≡ some row') × RowStep row row'
unfolding find_where
Evolves-find env id _ _ row nothing h = absurd (ground arith)
Evolves-find env id _ _ row (added _ _ _) h = absurd (ground arith)
Evolves-find env id (r ∷ rows) (r' ∷ rows') row (kept step e) h =
    let found = Evolves-find env id rows rows' row e in
    elim (Bool-cases (is_intent id r)) [
      | inl t ↦
          (r', ground (arith, same_id r r' step), subst (λ x. RowStep x r') (ground arith) step)
      | inr f ↦
          let (row', later, moved) = found (ground arith) in
          (row', ground (arith, same_id r r' step, later), moved)
    ]

Persists-step :
    (row row' row'' : Intent) → RowStep row row' → Persists row' row'' → Persists row row''
Persists-step row row' row'' step h = record {
  same = h.same ∙ step.same;
  final = λ final.
      let stayed = StatusStep-final _ _ step.moves final in
      h.final (ap is_final stayed ∙ final) ∙ stayed;
}

-- No sequence of requests loses an intent: whatever is asked, and wherever the database or the chain
-- fails, a row that was there under its id is there, with the same user, assets, amount,
-- ciphertext and hashes, and a settled or canceled one has the same status.
pub Reaches-find :
    (env : Env) (w w' : World) (id : Text) (row : Intent)
    → Reaches env w w'
    → Distinct w.db.intents
    → find_intent id w.db ≡ some row
    → (row' : Intent) × (find_intent id w'.db ≡ some row') × Persists row row'
unfolding find_intent
Reaches-find env w _ id row here h found = (row, found, record { same = refl; final = λ _. refl })
Reaches-find env w w' id row (after call r rest) h found =
    let step = handle-Step env call r w h in
    let (row1, found1, moved) = Evolves-find env id _ _ row step.evolves found in
    let (row', found', persists) = Reaches-find env _ w' id row1 rest step.distinct found1 in
    (row', found', Persists-step row row1 row' moved persists)

-- Whatever is asked and fails, the ids stay distinct, and every row opens to its own columns: what
-- the solvers are to see and what is released of the pending amounts is what the user encrypted.
pub Reaches-AllOpen :
    (env : Env) (w w' : World)
    → Reaches env w w'
    → Distinct w.db.intents
    → AllOpen env w.db.intents
    → Distinct w'.db.intents × AllOpen env w'.db.intents
Reaches-AllOpen env w _ here h all_open = (h, all_open)
Reaches-AllOpen env w w' (after call r rest) h all_open =
    let step = handle-Step env call r w h in
    Reaches-AllOpen env _ w' rest step.distinct (Evolves-AllOpen env _ _ step.evolves all_open)
