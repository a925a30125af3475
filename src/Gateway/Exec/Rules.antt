-- ===== src/Gateway/Exec/Rules.antt =====
-- Rules for handlers, one for each way to build one: which leave the tables alone, and which leave
-- them alone wherever they fail.
use mathlib.Core.Path.{subst}
use blindmarkets.Base.{
  ◌≡◌, refl, sym, ap, ◌∙◌, Bool, true, false, Option, some, if◌then◌else◌, arith,
}
use blindmarkets.Gateway.Types.{Db, Metrics, SolverBroadcast}
use blindmarkets.Gateway.Exec.{
  Failure, Result, ok, err, World, Exec, pure, fail, continue, ◌>>=◌, checked, get_db, modify_db,
  modify_metrics, send, round_trip, execute, query, transaction, guard, or_fail,
}

-- `m` leaves the tables alone.
pub record Quiet {A : Type 0} (m : Exec A) : Type 0 where
  pub at : (w : World) → (m w).1.db ≡ w.db

-- Where `m` fails, the tables are as before.
pub record Atomic {A : Type 0} (m : Exec A) : Type 0 where
  pub at : (w : World) (e : Failure) → (m w).0 ≡ err e → (m w).1.db ≡ w.db

-- `m` never fails.
pub record Sure {A : Type 0} (m : Exec A) : Type 0 where
  pub at : (w : World) → (a : A) × ((m w).0 ≡ ok a)

module _ {A : Type 0} where
  pub Quiet-pure : (a : A) → Quiet (pure a)
  unfolding pure
  Quiet-pure a = record { at = λ w. refl }

  pub Quiet-fail : (e : Failure) → Quiet (fail {A = A} e)
  unfolding fail
  Quiet-fail e = record { at = λ w. refl }

  pub Quiet-checked : (r : Result A) → Quiet (checked r)
  Quiet-checked r = record { at = λ w. refl }

  pub Quiet-query : (f : Db → A) → Quiet (query f)
  unfolding query round_trip get_db pure ◌>>=◌
  Quiet-query f = record { at = λ w. ground arith }

  pub Quiet-if : (b : Bool) (m n : Exec A) → Quiet m → Quiet n → Quiet (if b then m else n)
  Quiet-if true m n hm hn = hm
  Quiet-if false m n hm hn = hn

  pub Atomic-Quiet : (m : Exec A) → Quiet m → Atomic m
  Atomic-Quiet m q = record { at = λ w e h. q.at w }

  pub Atomic-transaction : (m : Exec A) → Atomic (transaction m)
  unfolding transaction round_trip get_db ◌>>=◌
  Atomic-transaction m = record { at = λ w e h. ground arith }

  pub Atomic-if : (b : Bool) (m n : Exec A) → Atomic m → Atomic n → Atomic (if b then m else n)
  Atomic-if true m n hm hn = hm
  Atomic-if false m n hm hn = hn

  pub Sure-pure : (a : A) → Sure (pure a)
  unfolding pure
  Sure-pure a = record { at = λ w. (a, refl) }

pub Quiet-send : (m : SolverBroadcast) → Quiet (send m)
unfolding send
Quiet-send m = record { at = λ w. refl }

pub Quiet-modify_metrics : (f : Metrics → Metrics) → Quiet (modify_metrics f)
unfolding modify_metrics
Quiet-modify_metrics f = record { at = λ w. refl }

pub Sure-modify_metrics : (f : Metrics → Metrics) → Sure (modify_metrics f)
unfolding modify_metrics
Sure-modify_metrics f = record { at = λ w. (tt, refl) }

pub Atomic-execute : (f : Db → Db) → Atomic (execute f)
unfolding execute round_trip modify_db ◌>>=◌
Atomic-execute f = record { at = λ w e h. ground arith }

module _ {A B : Type 0} where
  pub Quiet-bind :
      (m : Exec A) (f : A → Exec B) → Quiet m → ((a : A) → Quiet (f a)) → Quiet (m >>= f)
  unfolding ◌>>=◌
  Quiet-bind m f qm qf = record { at = λ w. go (m w).0 (m w).1 ∙ qm.at w }
    where
      go : (r : Result A) (w' : World) → (continue r f w').1.db ≡ w'.db
      go (ok a) w' = (qf a).at w'
      go (err e) w' = refl

  pub Atomic-bind :
      (m : Exec A) (f : A → Exec B) → Quiet m → ((a : A) → Atomic (f a)) → Atomic (m >>= f)
  unfolding ◌>>=◌
  Atomic-bind m f qm af = record { at = λ w e h. go (m w).0 (m w).1 e h ∙ qm.at w }
    where
      go :
          (r : Result A) (w' : World) (e : Failure)
          → (continue r f w').0 ≡ err e
          → (continue r f w').1.db ≡ w'.db
      go (ok a) w' e h = (af a).at w' e h
      go (err e') w' e h = refl

  pub Sure-bind : (m : Exec A) (f : A → Exec B) → Sure m → ((a : A) → Sure (f a)) → Sure (m >>= f)
  unfolding ◌>>=◌
  Sure-bind m f sm sf = record { at = λ w. go (m w).0 (m w).1 (sm.at w).0 (sm.at w).1 }
    where
      go : (r : Result A) (w' : World) (a : A) → r ≡ ok a → (b : B) × ((continue r f w').0 ≡ ok b)
      go (ok a') w' a q = (sf a').at w'
      go (err e) w' a q = absurd (ground arith)

  -- What follows a change must not fail.
  pub Atomic-bind-Sure :
      (m : Exec A) (f : A → Exec B) → Atomic m → ((a : A) → Sure (f a)) → Atomic (m >>= f)
  unfolding ◌>>=◌
  Atomic-bind-Sure m f am sf = record { at = λ w e h. go w (m w).0 refl e h }
    where
      go :
          (w : World) (r : Result A)
          → (m w).0 ≡ r
          → (e : Failure) → ((m >>= f) w).0 ≡ err e
          → ((m >>= f) w).1.db ≡ w.db
      go w (ok a) q e h = absurd (ground (arith, (sf a).at (m w).1))
      go w (err e') q e h = ground (arith, am.at w e' q)

pub ruleset quiet_rules = (
  Quiet-pure, Quiet-fail, Quiet-checked, Quiet-query, Quiet-if, Quiet-send, Quiet-modify_metrics,
  Quiet-bind,
)

pub ruleset atomic_rules = (
  quiet_rules, Atomic-Quiet, Atomic-transaction, Atomic-if, Atomic-execute, Atomic-bind,
  Atomic-bind-Sure, Sure-pure, Sure-bind, Sure-modify_metrics,
)

-- Inversion of a handler that returned.
pub >>=-eq-ok :
    {A B : Type 0} (m : Exec A) (f : A → Exec B) (w : World) {b : B}
    → ((m >>= f) w).0 ≡ ok b
    → (a : A) × ((m w).0 ≡ ok a)
      × ((f a (m w).1).0 ≡ ok b)
      × (((m >>= f) w).1.db ≡ (f a (m w).1).1.db)
unfolding ◌>>=◌
>>=-eq-ok {A} {B} m f w {b} h = go (m w).0 (m w).1 h
  where
    go :
        (r : Result A) (w' : World)
        → (continue r f w').0 ≡ ok b
        → (a : A) × (r ≡ ok a) × ((f a w').0 ≡ ok b) × ((continue r f w').1.db ≡ (f a w').1.db)
    go (ok a) w' q = (a, refl, q, refl)
    go (err e) w' q = absurd (ground arith)

pub query_ok : {A : Type 0} (f : Db → A) (w : World) {a : A} → (query f w).0 ≡ ok a → a ≡ f w.db
unfolding query round_trip get_db pure ◌>>=◌
query_ok f w h = ground arith

pub guard_ok : (b : Bool) (e : Failure) → guard b e ≡ ok tt → b ≡ true
guard_ok b e h = ground arith

pub or_fail_ok : {A : Type 0} (o : Option A) (e : Failure) {a : A} → or_fail o e ≡ ok a → o ≡ some a
or_fail_ok o e h = ground arith

pub ok-injective : {A : Type 0} {a b : A} → ok a ≡ ok b → a ≡ b
ok-injective h = ground arith

-- A fact about the tables after a handler whose first part leaves them alone.
pub after-Quiet :
    {A B : Type 0} (P : Db → Type 0) (m : Exec A) (f : A → Exec B) (w : World)
    → Quiet m
    → P w.db
    → ((a : A) → (m w).0 ≡ ok a → (m w).1.db ≡ w.db → P (f a (m w).1).1.db)
    → P ((m >>= f) w).1.db
unfolding ◌>>=◌
after-Quiet {A} {B} P m f w q kept then_ = go (m w).0 (m w).1 refl refl (q.at w)
  where
    go :
        (r : Result A) (w' : World)
        → (m w).0 ≡ r
        → (m w).1 ≡ w'
        → w'.db ≡ w.db
        → P (continue r f w').1.db
    go (ok a) w' e e' same =
        subst (λ x. P (f a x).1.db) e' (then_ a e (ap (λ (x : World). x.db) e' ∙ same))
    go (err e) w' q e' same = subst P (sym same) kept
