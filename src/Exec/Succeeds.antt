-- ===== src/Exec/Succeeds.antt =====
-- Total correctness of actions: the action returns, and what holds then.
use laap.Base.{Bool, List, Option, [], refl, some, true, ◌∷◌, ◌≡◌}
use laap.Exec.{
  Failure, M, Outcome, continue, ensure, err, for_each, gets, ok, or_throw, rollback, transaction,
  ◌>>=◌,
}
use laap.Schema.{Db}

abbrev pub Succeeds : {A : Type 0} → (A → Db → Type 0) → Outcome A → Type 0
Succeeds Q (ok a db) = Q a db
Succeeds Q (err e db) = ⊥

continue-Succeeds :
    {A B : Type 0} (R : A → Db → Type 0) (Q : B → Db → Type 0) (o : Outcome A) (f : A → M B)
    → Succeeds R o
    → ((a : A) (db : Db) → R a db → Succeeds Q (f a db))
    → Succeeds Q (continue o f)
continue-Succeeds R Q (ok a db) f h k = k a db h
continue-Succeeds R Q (err e db) f h k = h

pub Succeeds-bind :
    {A B : Type 0} (R : A → Db → Type 0) (Q : B → Db → Type 0) (m : M A) (f : A → M B) (db : Db)
    → Succeeds R (m db)
    → ((a : A) (db' : Db) → R a db' → Succeeds Q (f a db'))
    → Succeeds Q ((m >>= f) db)
unfolding ◌>>=◌
Succeeds-bind R Q m f db h k = continue-Succeeds R Q (m db) f h k

rollback-Succeeds :
    {A : Type 0} (Q : A → Db → Type 0) (db : Db) (o : Outcome A)
    → Succeeds Q o
    → Succeeds Q (rollback db o)
rollback-Succeeds Q db (ok a db') h = h
rollback-Succeeds Q db (err e db') h = h

pub Succeeds-transaction :
    {A : Type 0} (Q : A → Db → Type 0) (m : M A) (db : Db)
    → Succeeds Q (m db)
    → Succeeds Q (transaction m db)
unfolding transaction
Succeeds-transaction Q m db h = rollback-Succeeds Q db (m db) h

-- The result, and the database that it is returned with.
pub Succeeds-returns :
    {A : Type 0} (Q : A → Db → Type 0) (o : Outcome A)
    → Succeeds Q o
    → (a : A) × (db : Db) × (o ≡ ok a db) × Q a db
Succeeds-returns Q (ok a db) h = (a, db, refl, h)
Succeeds-returns Q (err e db) h = absurd h

-- The rule of a loop: the invariant knows the rows that are left.
pub Succeeds-for_each :
    {A : Type 0} (I : List A → Db → Type 0) (f : A → M (Unit {0}))
    → ((x : A) (rest : List A) (db : Db) → I (x ∷ rest) db → Succeeds (λ _. I rest) (f x db))
    → (xs : List A) (db : Db) → I xs db
    → Succeeds (λ _. I []) (for_each xs f db)
unfolding for_each
Succeeds-for_each I f step [] db h = h
Succeeds-for_each I f step (x ∷ xs) db h =
    continue-Succeeds (λ _. I xs) (λ _. I []) (f x db) (λ _. for_each xs f) (step x xs db h)
      (λ _ db' h'. Succeeds-for_each I f step xs db' h')

module _ {A B : Type 0} (Q : B → Db → Type 0) where
  pub Succeeds-gets :
      (f : Db → A) (k : A → M B) (db : Db)
      → Succeeds Q (k (f db) db)
      → Succeeds Q ((gets f >>= k) db)
  unfolding ◌>>=◌
  Succeeds-gets f k db h = h

  pub Succeeds-or_throw :
      (o : Option A) (e : Failure) (k : A → M B) (db : Db) (a : A)
      → o ≡ some a
      → Succeeds Q (k a db)
      → Succeeds Q ((or_throw o e >>= k) db)
  unfolding ◌>>=◌
  Succeeds-or_throw o e k db a found h = rw found h

module _ {B : Type 0} (Q : B → Db → Type 0) where
  pub Succeeds-ensure :
      (b : Bool) (e : Failure) (k : Unit {0} → M B) (db : Db)
      → b ≡ true
      → Succeeds Q (k tt db)
      → Succeeds Q ((ensure b e >>= k) db)
  unfolding ◌>>=◌
  Succeeds-ensure b e k db test h = rw test h
