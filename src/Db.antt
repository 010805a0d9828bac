-- ===== src/Db.antt =====
-- AppDatabase (apps/api/src/db/database.ts): a statement writes a table, or is refused by a
-- constraint of the schema and writes nothing.
pub mod Writes
pub mod WellFormed
pub mod Queries
use laap.Base.{ℕ, Bool, String, List, [], ◌∷◌, ◌++◌, if◌then◌else◌}
use laap.Base.Rows.{update_where}
use laap.Schema.{
  User, Account, Assignment, Device, Session, AuditLog, Payload, Db, users_ok, accounts_ok,
  assignments_ok, devices_ok, sessions_ok,
}
use laap.Exec.{Outcome, ok, err, M, constraint}

-- What a call takes from outside: the clock, the `randomUUID` for the row that it inserts, and the
-- `randomUUID` of the n-th row of the audit log. One synchronous call reads one time.
pub record Moment : Type 0 where
  pub now : ℕ
  pub uuid : String
  pub audit_uuid : ℕ → String

unfoldable pub write_users : List User → M (Unit {0})
write_users rows db =
    if users_ok rows then ok tt (record db { users = rows }) else err constraint db

unfoldable pub write_accounts : List Account → M (Unit {0})
write_accounts rows db =
    if accounts_ok rows then ok tt (record db { accounts = rows }) else err constraint db

unfoldable pub write_assignments : List Assignment → M (Unit {0})
write_assignments rows db =
    if assignments_ok rows then ok tt (record db { assignments = rows }) else err constraint db

unfoldable pub write_devices : List Device → M (Unit {0})
write_devices rows db =
    if devices_ok rows then ok tt (record db { devices = rows }) else err constraint db

unfoldable pub write_sessions : List Session → M (Unit {0})
write_sessions rows db =
    if sessions_ok rows then ok tt (record db { sessions = rows }) else err constraint db

-- UPDATE … SET … WHERE …
unfoldable pub update_users : (User → Bool) → (User → User) → M (Unit {0})
update_users p f db = write_users (update_where p f db.users) db

unfoldable pub update_accounts : (Account → Bool) → (Account → Account) → M (Unit {0})
update_accounts p f db = write_accounts (update_where p f db.accounts) db

unfoldable pub update_assignments : (Assignment → Bool) → (Assignment → Assignment) → M (Unit {0})
update_assignments p f db = write_assignments (update_where p f db.assignments) db

unfoldable pub update_devices : (Device → Bool) → (Device → Device) → M (Unit {0})
update_devices p f db = write_devices (update_where p f db.devices) db

unfoldable pub update_sessions : (Session → Bool) → (Session → Session) → M (Unit {0})
update_sessions p f db = write_sessions (update_where p f db.sessions) db

-- INSERT INTO …
unfoldable pub insert_user : User → M (Unit {0})
insert_user row db = write_users (db.users ++ row ∷ []) db

unfoldable pub insert_account : Account → M (Unit {0})
insert_account row db = write_accounts (db.accounts ++ row ∷ []) db

unfoldable pub insert_assignment : Assignment → M (Unit {0})
insert_assignment row db = write_assignments (db.assignments ++ row ∷ []) db

unfoldable pub insert_device : Device → M (Unit {0})
insert_device row db = write_devices (db.devices ++ row ∷ []) db

unfoldable pub insert_session : Session → M (Unit {0})
insert_session row db = write_sessions (db.sessions ++ row ∷ []) db
