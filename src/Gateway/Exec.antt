-- ===== src/Gateway/Exec.antt =====
-- How a handler of backend/gateway/src/api.rs runs: what it did before an early return stays done,
-- so the world comes back beside the error.
pub mod Rules
use blindmarkets.Base.{ℕ, suc, ◌+◌, Bool, true, false, not, List, [], ◌∷◌, Option, none, some, Text}
use blindmarkets.Gateway.Types.{Db, Metrics, SolverBroadcast, StatusCode, internal_server_error}

-- `reject(code)` counts the rejection in the metrics; `?` and `return Err(code)` do not.
pub data Failure : Type 0 where
  rejected aborted : StatusCode → Failure

abbrev pub status_of : Failure → StatusCode
status_of (rejected c) = c
status_of (aborted c) = c

pub data Result {ℓ} (A : Type ℓ) : Type ℓ where
  ok : A → Result A
  err : Failure → Result A

-- An entry of Redis: a counter, and the seconds after which it expires.
pub record Counter : Type 0 where
  pub key : Text
  pub count : ℕ
  pub ttl : Option ℕ

-- What the handlers share. `faults n` says whether the round trip of number n to PostgreSQL or Redis
-- fails, and `trips` counts those made. `broadcasts` holds the newest first.
pub record World : Type 0 where
  pub db : Db
  pub redis : List Counter
  pub faults : ℕ → Bool
  pub trips : ℕ
  pub metrics : Metrics
  pub broadcasts : List SolverBroadcast

abbrev pub Exec : Type 0 → Type 0
Exec A = World → Result A × World

unfoldable pub pure : {A : Type 0} → A → Exec A
pure a w = (ok a, w)

unfoldable pub fail : {A : Type 0} → Failure → Exec A
fail e w = (err e, w)

abbrev pub continue : {A B : Type 0} → Result A → (A → Exec B) → Exec B
continue (ok a) f w = f a w
continue (err e) f w = (err e, w)

infixl 5 ◌>>=◌ ◌>>◌
unfoldable pub ◌>>=◌ : {A B : Type 0} → Exec A → (A → Exec B) → Exec B
unfolding pure fail
◌>>=◌ m f w = continue (m w).0 f (m w).1

abbrev pub ◌>>◌ : {B : Type 0} → Exec (Unit {0}) → Exec B → Exec B
m >> n = m >>= λ _. n

abbrev pub checked : {A : Type 0} → Result A → Exec A
checked r w = (r, w)

-- `if !b { return Err(..) }`, inside a pure check and inside a handler
abbrev pub guard : Bool → Failure → Result (Unit {0})
guard true e = ok tt
guard false e = err e

abbrev pub or_fail : {A : Type 0} → Option A → Failure → Result A
or_fail none e = err e
or_fail (some a) e = ok a

-- Checks in a row: the first that fails decides.
infixr 6 ◌then_check◌
abbrev pub ◌then_check◌ : {B : Type 0} → Result (Unit {0}) → Result B → Result B
ok _ then_check r = r
err e then_check r = err e

unfoldable pub get_db : Exec Db
get_db w = (ok w.db, w)

unfoldable pub modify_db : (Db → Db) → Exec (Unit {0})
modify_db f w = (ok tt, record w { db = f w.db })

unfoldable pub modify_metrics : (Metrics → Metrics) → Exec (Unit {0})
modify_metrics f w = (ok tt, record w { metrics = f w.metrics })

-- `broadcaster.send`, whose error is only logged
unfoldable pub send : SolverBroadcast → Exec (Unit {0})
send m w = (ok tt, record w { broadcasts = m ∷ w.broadcasts })

-- One round trip, which fails with `e` where the schedule says so.
unfoldable pub round_trip : Failure → Exec (Unit {0})
round_trip e w = (guard (not (w.faults w.trips)) e, record w { trips = suc w.trips })

abbrev pub database_error : Failure
database_error = aborted internal_server_error

-- A statement outside a transaction.
unfoldable pub execute : (Db → Db) → Exec (Unit {0})
execute f = do round_trip database_error; modify_db f

with_rows : (Db → Bool × Db) → Exec Bool
with_rows f w = ((ok (f w.db).0), record w { db = (f w.db).1 })

-- A statement whose `rows_affected` the code reads: whether it is not 0.
unfoldable pub execute_rows : (Db → Bool × Db) → Exec Bool
unfolding with_rows
execute_rows f = do round_trip database_error; with_rows f

-- `let _ = ..`, an error that is ignored
unfoldable pub attempt : Exec (Unit {0}) → Exec (Unit {0})
attempt m w = (ok tt, (m w).1)

unfoldable pub query : {A : Type 0} → (Db → A) → Exec A
query f = do round_trip database_error; db ← get_db; pure (f db)

commit_result : {A : Type 0} → Db → A → Result (Unit {0}) × World → Result A × World
commit_result before a (ok _, w) = (ok a, w)
commit_result before a (err e, w) = (err e, record w { db = before })

-- The end of a transaction: a commit if the block returned, else a rollback to `before`.
finish : {A : Type 0} → Db → Result A × World → Result A × World
unfolding commit_result
finish before (ok a, w) = commit_result before a (round_trip database_error w)
finish before (err e, w) = (err e, record w { db = before })

-- `pool.begin()`, the block, and `tx.commit()`; a transaction that is dropped is rolled back.
unfoldable pub transaction : {A : Type 0} → Exec A → Exec A
unfolding finish
transaction m = do round_trip database_error; before ← get_db; λ w. finish before (m w)

count_rejection : Metrics → Metrics
count_rejection t = record t {
  intents_rejected_total = t.intents_rejected_total + 1;
  request_latency_observations = t.request_latency_observations + 1;
}

tally : {A : Type 0} → Result A × World → Result A × World
tally (ok a, w) = (ok a, w)
tally (err (aborted c), w) = (err (aborted c), w)
tally (err (rejected c), w) = (err (rejected c), record w { metrics = count_rejection w.metrics })

-- The closure `reject` of `submit_intent`, at each of its calls.
unfoldable pub count_rejections : {A : Type 0} → Exec A → Exec A
unfolding count_rejection tally
count_rejections m w = tally (m w)
