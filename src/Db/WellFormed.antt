-- ===== src/Db/WellFormed.antt =====
-- Every statement leaves the tables within the constraints of the schema.
use laap.Base.{Bool, true, ◌≡◌, List, arith}
use laap.Schema.{User, Db, users_ok, accounts_ok, assignments_ok, devices_ok, sessions_ok}
use laap.Exec.Keeps.{Keeps}
use laap.Db.{
  Session, Device, Assignment, Account, write_users, write_accounts, write_assignments,
  write_devices, write_sessions, update_users, update_accounts, update_assignments, update_devices,
  update_sessions, insert_user, insert_account, insert_assignment, insert_device, insert_session,
}

-- The tables meet the keys, the unique indexes and the CHECK on release reasons.
pub record WellFormed (db : Db) : Type 0 where
  pub users : users_ok db.users ≡ true
  pub accounts : accounts_ok db.accounts ≡ true
  pub assignments : assignments_ok db.assignments ≡ true
  pub devices : devices_ok db.devices ≡ true
  pub sessions : sessions_ok db.sessions ≡ true

write_users-WellFormed : (rows : List User) → Keeps WellFormed (write_users rows)
unfolding write_users
write_users-WellFormed rows = record { at = λ db w. ground arith }

write_accounts-WellFormed : (rows : List Account) → Keeps WellFormed (write_accounts rows)
unfolding write_accounts
write_accounts-WellFormed rows = record { at = λ db w. ground arith }

write_assignments-WellFormed : (rows : List Assignment) → Keeps WellFormed (write_assignments rows)
unfolding write_assignments
write_assignments-WellFormed rows = record { at = λ db w. ground arith }

write_devices-WellFormed : (rows : List Device) → Keeps WellFormed (write_devices rows)
unfolding write_devices
write_devices-WellFormed rows = record { at = λ db w. ground arith }

write_sessions-WellFormed : (rows : List Session) → Keeps WellFormed (write_sessions rows)
unfolding write_sessions
write_sessions-WellFormed rows = record { at = λ db w. ground arith }

pub update_users-WellFormed :
    (p : User → Bool) (f : User → User) → Keeps WellFormed (update_users p f)
unfolding update_users
update_users-WellFormed p f = record { at = λ db w. (write_users-WellFormed _).at db w }

pub insert_user-WellFormed : (row : User) → Keeps WellFormed (insert_user row)
unfolding insert_user
insert_user-WellFormed row = record { at = λ db w. (write_users-WellFormed _).at db w }

pub update_accounts-WellFormed :
    (p : Account → Bool) (f : Account → Account) → Keeps WellFormed (update_accounts p f)
unfolding update_accounts
update_accounts-WellFormed p f = record { at = λ db w. (write_accounts-WellFormed _).at db w }

pub insert_account-WellFormed : (row : Account) → Keeps WellFormed (insert_account row)
unfolding insert_account
insert_account-WellFormed row = record { at = λ db w. (write_accounts-WellFormed _).at db w }

pub update_assignments-WellFormed :
    (p : Assignment → Bool) (f : Assignment → Assignment)
    → Keeps WellFormed (update_assignments p f)
unfolding update_assignments
update_assignments-WellFormed p f = record { at = λ db w. (write_assignments-WellFormed _).at db w }

pub insert_assignment-WellFormed : (row : Assignment) → Keeps WellFormed (insert_assignment row)
unfolding insert_assignment
insert_assignment-WellFormed row = record { at = λ db w. (write_assignments-WellFormed _).at db w }

pub update_devices-WellFormed :
    (p : Device → Bool) (f : Device → Device) → Keeps WellFormed (update_devices p f)
unfolding update_devices
update_devices-WellFormed p f = record { at = λ db w. (write_devices-WellFormed _).at db w }

pub insert_device-WellFormed : (row : Device) → Keeps WellFormed (insert_device row)
unfolding insert_device
insert_device-WellFormed row = record { at = λ db w. (write_devices-WellFormed _).at db w }

pub update_sessions-WellFormed :
    (p : Session → Bool) (f : Session → Session) → Keeps WellFormed (update_sessions p f)
unfolding update_sessions
update_sessions-WellFormed p f = record { at = λ db w. (write_sessions-WellFormed _).at db w }

pub insert_session-WellFormed : (row : Session) → Keeps WellFormed (insert_session row)
unfolding insert_session
insert_session-WellFormed row = record { at = λ db w. (write_sessions-WellFormed _).at db w }
