-- ===== src/Exec.antt =====
-- Service methods as actions on the database: they return or throw, and what was written before a
-- throw stays until a transaction takes it back (`transaction` of apps/api/src/db/database.ts).
pub mod Keeps
pub mod Yields
pub mod Refuses
pub mod Atomic
pub mod Succeeds
use laap.Base.{ℕ, Bool, true, false, String, Option, none, some, List, [], ◌∷◌}
use laap.Schema.{Db}

-- services/service-error.ts
pub record ServiceError : Type 0 where
  pub code : String
  pub status : ℕ
  pub message : String

-- http/errors.ts
pub record HttpError : Type 0 where
  pub status : ℕ
  pub code : String
  pub message : String

-- What a method throws: its own error, a constraint that SQLite refuses, or a plain `Error`; a route
-- also throws an `HttpError`.
pub data Failure : Type 0 where
  service : ServiceError → Failure
  http : HttpError → Failure
  constraint : Failure
  plain : String → Failure

-- `new ServiceError(code, status)`: the message is the code
abbrev pub service_error : String → ℕ → Failure
service_error code status = service (record { code = code; status = status; message = code })

-- `new HttpError(status, code, message)`
abbrev pub http_error : ℕ → String → String → Failure
http_error status code message = http (record { status = status; code = code; message = message })

pub data Outcome (A : Type 0) : Type 0 where
  ok : A → Db → Outcome A
  err : Failure → Db → Outcome A

abbrev pub M : Type 0 → Type 0
M A = Db → Outcome A

abbrev pub after : {A : Type 0} → Outcome A → Db
after (ok a db) = db
after (err e db) = db

module _ {A : Type 0} where
  unfoldable pub pure : A → M A
  pure a db = ok a db

  unfoldable pub throw : Failure → M A
  throw e db = err e db

  unfoldable pub gets : (Db → A) → M A
  gets f db = ok (f db) db

  -- `if (!value) throw error`
  unfoldable pub or_throw : Option A → Failure → M A
  or_throw none e db = err e db
  or_throw (some a) e db = ok a db

-- `if (!test) throw error`
unfoldable pub ensure : Bool → Failure → M (Unit {0})
ensure true e db = ok tt db
ensure false e db = err e db

-- `if (test) action`
unfoldable pub when : Bool → M (Unit {0}) → M (Unit {0})
when true m db = m db
when false m db = ok tt db

module _ {A B : Type 0} where
  abbrev continue : Outcome A → (A → M B) → Outcome B
  continue (ok a db) f = f a db
  continue (err e db) f = err e db

  infixl 10 ◌>>=◌ ◌>>◌
  unfoldable pub ◌>>=◌ : M A → (A → M B) → M B
  unfolding pure throw gets or_throw ensure when
  ◌>>=◌ m f db = continue (m db) f

  abbrev pub ◌>>◌ : M A → M B → M B
  m >> n = m >>= λ _. n

-- BEGIN IMMEDIATE; COMMIT when the callback returns, ROLLBACK when it throws
abbrev rollback : {A : Type 0} → Db → Outcome A → Outcome A
rollback before (ok a db) = ok a db
rollback before (err e db) = err e before

unfoldable pub transaction : {A : Type 0} → M A → M A
transaction m db = rollback db (m db)

-- `for (const row of rows) action`
unfoldable pub for_each : {A : Type 0} → List A → (A → M (Unit {0})) → M (Unit {0})
for_each [] f db = ok tt db
for_each (x ∷ xs) f db = continue (f x db) (λ _. for_each xs f)
