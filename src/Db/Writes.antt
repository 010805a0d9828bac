-- ===== src/Db/Writes.antt =====
-- What holds of the database before a statement, and would hold of the rows that it writes, holds
-- after it: a constraint that refuses the rows leaves the database as it was.
use laap.Base.{Bool-cases, List, inl, inr}
use laap.Db.{write_accounts, write_assignments, write_devices, write_sessions, write_users}
use laap.Exec.{after}
use laap.Schema.{
  Account, Assignment, Db, Device, Session, User, accounts_ok, assignments_ok, devices_ok,
  sessions_ok, users_ok,
}

module _ (P : Db → Type 0) (db : Db) (before : P db) where
  pub write_users_after :
      (rows : List User) → P (record db { users = rows }) → P (after (write_users rows db))
  unfolding write_users
  write_users_after rows new = elim (Bool-cases (users_ok rows)) [
    | inl kept ↦ rw (kept, write_users) new
    | inr refused ↦ rw (refused, write_users) before
  ]

  pub write_accounts_after :
      (rows : List Account) → P (record db { accounts = rows }) → P (after (write_accounts rows db))
  unfolding write_accounts
  write_accounts_after rows new = elim (Bool-cases (accounts_ok rows)) [
    | inl kept ↦ rw (kept, write_accounts) new
    | inr refused ↦ rw (refused, write_accounts) before
  ]

  pub write_assignments_after :
      (rows : List Assignment)
      → P (record db { assignments = rows })
      → P (after (write_assignments rows db))
  unfolding write_assignments
  write_assignments_after rows new = elim (Bool-cases (assignments_ok rows)) [
    | inl kept ↦ rw (kept, write_assignments) new
    | inr refused ↦ rw (refused, write_assignments) before
  ]

  pub write_devices_after :
      (rows : List Device) → P (record db { devices = rows }) → P (after (write_devices rows db))
  unfolding write_devices
  write_devices_after rows new = elim (Bool-cases (devices_ok rows)) [
    | inl kept ↦ rw (kept, write_devices) new
    | inr refused ↦ rw (refused, write_devices) before
  ]

  pub write_sessions_after :
      (rows : List Session) → P (record db { sessions = rows }) → P (after (write_sessions rows db))
  unfolding write_sessions
  write_sessions_after rows new = elim (Bool-cases (sessions_ok rows)) [
    | inl kept ↦ rw (kept, write_sessions) new
    | inr refused ↦ rw (refused, write_sessions) before
  ]
