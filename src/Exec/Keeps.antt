-- ===== src/Exec/Keeps.antt =====
-- Invariants of actions, one rule for each way to build an action.
use laap.Base.{Bool, true, false, Option, none, some, List, [], ◌∷◌, if◌then◌else◌}
use laap.Schema.{Db}
use laap.Exec.{
  Failure, Outcome, ok, err, M, after, pure, throw, gets, or_throw, ensure, when, ◌>>=◌,
  transaction, for_each, rollback, continue,
}

-- `m` leaves a database on which `P` holds, whether it returns or throws.
pub record Keeps {A : Type 0} (P : Db → Type 0) (m : M A) : Type 0 where
  pub at : (db : Db) → P db → P (after (m db))

keeps_rollback :
    {A : Type 0} (P : Db → Type 0) (db : Db) (o : Outcome A)
    → P db
    → P (after o)
    → P (after (rollback db o))
keeps_rollback P db (ok a db') h k = k
keeps_rollback P db (err e db') h k = h

module _ {A : Type 0} {P : Db → Type 0} where
  pub Keeps-pure : (a : A) → Keeps P (pure a)
  unfolding pure
  Keeps-pure a = record { at = λ db h. h }

  pub Keeps-throw : (e : Failure) → Keeps P (throw {A = A} e)
  unfolding throw
  Keeps-throw e = record { at = λ db h. h }

  pub Keeps-gets : (f : Db → A) → Keeps P (gets f)
  unfolding gets
  Keeps-gets f = record { at = λ db h. h }

  pub Keeps-or_throw : (o : Option A) (e : Failure) → Keeps P (or_throw o e)
  unfolding or_throw
  Keeps-or_throw none e = record { at = λ db h. h }
  Keeps-or_throw (some a) e = record { at = λ db h. h }

  pub Keeps-if : (b : Bool) (m n : M A) → Keeps P m → Keeps P n → Keeps P (if b then m else n)
  Keeps-if true m n km kn = km
  Keeps-if false m n km kn = kn

  pub Keeps-transaction : (m : M A) → Keeps P m → Keeps P (transaction m)
  unfolding transaction
  Keeps-transaction m k = record { at = λ db h. keeps_rollback P db (m db) h (k.at db h) }

module _ {P : Db → Type 0} where
  pub Keeps-ensure : (b : Bool) (e : Failure) → Keeps P (ensure b e)
  unfolding ensure
  Keeps-ensure true e = record { at = λ db h. h }
  Keeps-ensure false e = record { at = λ db h. h }

  pub Keeps-when : (b : Bool) (m : M (Unit {0})) → Keeps P m → Keeps P (when b m)
  unfolding when
  Keeps-when true m k = record { at = k.at }
  Keeps-when false m k = record { at = λ db h. h }

module _ {A B : Type 0} {P : Db → Type 0} where
  continue-keeps :
      (o : Outcome A) (f : A → M B)
      → P (after o)
      → ((a : A) → Keeps P (f a))
      → P (after (continue o f))
  continue-keeps (ok a db) f h k = (k a).at db h
  continue-keeps (err e db) f h k = h

  pub Keeps-bind :
      (m : M A) (f : A → M B) → Keeps P m → ((a : A) → Keeps P (f a)) → Keeps P (m >>= f)
  unfolding ◌>>=◌
  Keeps-bind m f km kf = record { at = λ db h. continue-keeps (m db) f (km.at db h) kf }

module _ {A : Type 0} {P : Db → Type 0} (f : A → M (Unit {0}))
    (step : (a : A) → Keeps P (f a)) where
  for_each-at : (xs : List A) (db : Db) → P db → P (after (for_each xs f db))
  unfolding for_each
  for_each-at [] db h = h
  for_each-at (x ∷ xs) db h =
      continue-keeps (f x db) (λ _. for_each xs f) ((step x).at db h)
        (λ _. record { at = for_each-at xs })

  pub Keeps-for_each : (xs : List A) → Keeps P (for_each xs f)
  Keeps-for_each xs = record { at = for_each-at xs }

pub ruleset keeps_rules = (
  Keeps-pure, Keeps-throw, Keeps-gets, Keeps-or_throw, Keeps-if, Keeps-transaction, Keeps-ensure,
  Keeps-when, Keeps-bind, Keeps-for_each,
)

-- The rules at one database, for what an action keeps there and not everywhere.
module _ {A : Type 0} (P : Db → Type 0) where
  pub transaction-at : (m : M A) (db : Db) → P db → P (after (m db)) → P (after (transaction m db))
  unfolding transaction
  transaction-at m db h k = keeps_rollback P db (m db) h k

  pub bind-at :
      {B : Type 0} (m : M B) (f : B → M A) (db : Db)
      → P (after (m db))
      → ((b : B) → Keeps P (f b))
      → P (after ((m >>= f) db))
  unfolding ◌>>=◌
  bind-at m f db h k = continue-keeps (m db) f h k
