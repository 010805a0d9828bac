-- ===== src/Exec/Yields.antt =====
-- What holds of the result and of the database where an action returns. Of an action that throws
-- nothing is said: in a transaction its writes are taken back.
use laap.Base.{Bool, List, Option, [], false, none, refl, some, true, ◌∷◌, ◌≡◌}
use laap.Exec.{
  Failure, M, Outcome, after, continue, ensure, err, for_each, gets, ok, or_throw, rollback,
  transaction, ◌>>=◌,
}
use laap.Exec.Keeps.{Keeps}
use laap.Schema.{Db}

abbrev pub Yields : {A : Type 0} → (A → Db → Type 0) → Outcome A → Type 0
Yields Q (ok a db) = Q a db
Yields Q (err e db) = Unit

-- Nothing is asked.
abbrev pub Anything : {A : Type 0} → A → Db → Type 0
Anything a db = Unit

continue-Yields :
    {A B : Type 0} (R : A → Db → Type 0) (Q : B → Db → Type 0) (o : Outcome A) (f : A → M B)
    → Yields R o
    → ((a : A) (db : Db) → R a db → Yields Q (f a db))
    → Yields Q (continue o f)
continue-Yields R Q (ok a db) f h k = k a db h
continue-Yields R Q (err e db) f h k = tt

pub Yields-bind :
    {A B : Type 0} (R : A → Db → Type 0) (Q : B → Db → Type 0) (m : M A) (f : A → M B) (db : Db)
    → Yields R (m db)
    → ((a : A) (db' : Db) → R a db' → Yields Q (f a db'))
    → Yields Q ((m >>= f) db)
unfolding ◌>>=◌
Yields-bind R Q m f db h k = continue-Yields R Q (m db) f h k

rollback-Yields :
    {A : Type 0} (Q : A → Db → Type 0) (db : Db) (o : Outcome A)
    → Yields Q o
    → Yields Q (rollback db o)
rollback-Yields Q db (ok a db') h = h
rollback-Yields Q db (err e db') h = h

pub Yields-transaction :
    {A : Type 0} (Q : A → Db → Type 0) (m : M A) (db : Db)
    → Yields Q (m db)
    → Yields Q (transaction m db)
unfolding transaction
Yields-transaction Q m db h = rollback-Yields Q db (m db) h

rollback-after :
    {A : Type 0} (P : Db → Type 0) (db : Db) (o : Outcome A)
    → P db
    → Yields (λ _. P) o
    → P (after (rollback db o))
rollback-after P db (ok a db') h k = k
rollback-after P db (err e db') h k = h

-- What a transaction makes true where it returns, and what held where it throws.
pub transaction-after :
    {A : Type 0} (P : Db → Type 0) (m : M A) (db : Db)
    → P db
    → Yields (λ _. P) (m db)
    → P (after (transaction m db))
unfolding transaction
transaction-after P m db h k = rollback-after P db (m db) h k

-- The result of an action that has returned.
pub Yields-ok :
    {A : Type 0} (Q : A → Db → Type 0) (o : Outcome A) (a : A) (db : Db)
    → Yields Q o
    → o ≡ ok a db
    → Q a db
Yields-ok Q o a db h e = rw e at h

skip :
    {A B : Type 0} (Q : B → Db → Type 0) (o : Outcome A) (f : A → M B)
    → ((a : A) (db : Db) → Yields Q (f a db))
    → Yields Q (continue o f)
skip Q (ok a db) f k = k a db
skip Q (err e db) f k = tt

-- What went before does not matter.
pub Yields-skip :
    {A B : Type 0} (Q : B → Db → Type 0) (m : M A) (f : A → M B) (db : Db)
    → ((a : A) (db' : Db) → Yields Q (f a db'))
    → Yields Q ((m >>= f) db)
unfolding ◌>>=◌
Yields-skip Q m f db k = skip Q (m db) f k

pub Yields-Anything : {A : Type 0} (o : Outcome A) → Yields Anything o
Yields-Anything (ok a db) = tt
Yields-Anything (err e db) = tt

pub Yields-weaken :
    {A : Type 0} (R Q : A → Db → Type 0) (o : Outcome A)
    → ((a : A) (db : Db) → R a db → Q a db)
    → Yields R o
    → Yields Q o
Yields-weaken R Q (ok a db) f h = f a db h
Yields-weaken R Q (err e db) f h = tt

pub Keeps-outcome : {A : Type 0} (P : Db → Type 0) (o : Outcome A) → P (after o) → Yields (λ _. P) o
Keeps-outcome P (ok a db) h = h
Keeps-outcome P (err e db) h = tt

pub Yields-of_Keeps :
    {A : Type 0} (P : Db → Type 0) (m : M A) → Keeps P m → (db : Db) → P db → Yields (λ _. P) (m db)
Yields-of_Keeps P m k db h = Keeps-outcome P (m db) (k.at db h)

-- The rule of a loop: the invariant knows the rows that are left.
pub Yields-for_each :
    {A : Type 0} (I : List A → Db → Type 0) (f : A → M (Unit {0}))
    → ((x : A) (rest : List A) (db : Db) → I (x ∷ rest) db → Yields (λ _. I rest) (f x db))
    → (xs : List A) (db : Db) → I xs db
    → Yields (λ _. I []) (for_each xs f db)
unfolding for_each
Yields-for_each I f step [] db h = h
Yields-for_each I f step (x ∷ xs) db h =
    continue-Yields (λ _. I xs) (λ _. I []) (f x db) (λ _. for_each xs f) (step x xs db h)
      (λ _ db' h'. Yields-for_each I f step xs db' h')

pub Yields-and :
    {A : Type 0} (Q R : A → Db → Type 0) (o : Outcome A)
    → Yields Q o
    → Yields R o
    → Yields (λ a db. Q a db × R a db) o
Yields-and Q R (ok a db) h k = (h, k)
Yields-and Q R (err e db) h k = tt

-- The rules for the reads and the guards of a method.
module _ {A B : Type 0} (Q : B → Db → Type 0) where
  pub Yields-gets :
      (f : Db → A) (k : A → M B) (db : Db) → Yields Q (k (f db) db) → Yields Q ((gets f >>= k) db)
  unfolding ◌>>=◌
  Yields-gets f k db h = h

  pub Yields-or_throw :
      (o : Option A) (e : Failure) (k : A → M B) (db : Db)
      → ((a : A) → o ≡ some a → Yields Q (k a db))
      → Yields Q ((or_throw o e >>= k) db)
  unfolding ◌>>=◌
  Yields-or_throw none e k db h = tt
  Yields-or_throw (some a) e k db h = h a refl

module _ {B : Type 0} (Q : B → Db → Type 0) where
  pub Yields-ensure :
      (b : Bool) (e : Failure) (k : Unit {0} → M B) (db : Db)
      → (b ≡ true → Yields Q (k tt db))
      → Yields Q ((ensure b e >>= k) db)
  unfolding ◌>>=◌
  Yields-ensure true e k db h = h refl
  Yields-ensure false e k db h = tt

settles :
    {A : Type 0} (P : Db → Type 0) (db : Db) (o : Outcome A)
    → P db
    → Yields (λ _. P) (rollback db o)
    → P (after (rollback db o))
settles P db (ok a db') h k = k
settles P db (err e db') h k = h

-- A transaction that throws leaves what held before it.
pub transaction-settles :
    {A : Type 0} (P : Db → Type 0) (m : M A) (db : Db)
    → P db
    → Yields (λ _. P) (transaction m db)
    → P (after (transaction m db))
unfolding transaction
transaction-settles P m db h k = settles P db (m db) h k
