-- ===== src/Exec/Atomic.antt =====
-- Transactions are all or nothing.
use laap.Base.{◌≡◌}
use laap.Exec.{Failure, M, Outcome, err, ok, rollback, transaction}
use laap.Schema.{Db}

rollback-unchanged :
    {A : Type 0} (o : Outcome A) (e : Failure) (db db' : Db) → rollback db o ≡ err e db' → db' ≡ db
rollback-unchanged (ok a d) e db db' h = cc
rollback-unchanged (err f d) e db db' h = cc

-- A transaction that throws, by an error of the service, a refused constraint or any other, leaves
-- the database exactly as it found it, whatever it had written.
pub transaction-unchanged :
    {A : Type 0} (m : M A) (e : Failure) (db db' : Db) → transaction m db ≡ err e db' → db' ≡ db
unfolding transaction
transaction-unchanged m e db db' h = rollback-unchanged (m db) e db db' h
