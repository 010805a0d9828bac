-- ===== src/Exec/Refuses.antt =====
-- An action that throws before it writes.
use laap.Base.{Bool, false, if◌then◌else◌, refl, true, ◌≡◌}
use laap.Exec.{Failure, M, err, throw, ◌>>=◌}
use laap.Schema.{Db}

-- at this database the action throws, and has written nothing
pub record Refuses {A : Type 0} (m : M A) (db : Db) : Type 0 where
  pub why : Failure
  pub thrown : m db ≡ err why db

pub bind-Refuses :
    {A B : Type 0} (m : M A) (f : A → M B) (db : Db) → Refuses m db → Refuses (m >>= f) db
unfolding ◌>>=◌
bind-Refuses m f db h = record { why = h.why; thrown = rw h.thrown refl }

pub throw-Refuses : {A : Type 0} (e : Failure) (db : Db) → Refuses (throw {A = A} e) db
unfolding throw
throw-Refuses e db = record { why = e; thrown = refl }

pub if_Refuses :
    {A : Type 0} (b : Bool) (m n : M A) (db : Db)
    → Refuses m db
    → Refuses n db
    → Refuses (if b then m else n) db
if_Refuses true m n db h k = h
if_Refuses false m n db h k = k

pub ruleset refuses_rules = (bind-Refuses, throw-Refuses, if_Refuses)
