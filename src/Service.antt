-- ===== src/Service.antt =====
-- LaapService (apps/api/src/services/laap-service.ts): the calls that write, as the events of a
-- database that one Node process serves. A method that awaits is two events, so that what other
-- requests do during the wait is a sequence of calls like any other.
pub mod Backed
pub mod Statements
pub mod Calls
pub mod WellFormed
pub mod Logged
pub mod HasAdmin
mod Tests
use laap.Accounts
use laap.Accounts.Blobs
use laap.Assignments
use laap.Devices
use laap.Leases
use laap.Leases.Release
use laap.Users
use laap.Base.{Bool, List, Option, String, [], ℕ, ◌∷◌}
use laap.Accounts.{AccountInput, AccountPatch}
use laap.Audit.{add_audit}
use laap.Db.{Moment}
use laap.Devices.{DeviceInput}
use laap.Exec.{after}
use laap.Leases.{Challenge}
use laap.Schema.{Expiry, Db, Payload}
use laap.SecretBox.{Cipher}
use laap.Types.{ApiUser, SessionRuntimeState}
use laap.Users.{Texts, UserInput, UserPatch}

-- What the service is built with: the vault key, and the libraries that it calls.
pub record Config : Type 0 where
  pub texts : Texts
  pub is_uuid : String → Bool
  pub cipher : Cipher
  pub vault_key : String

pub data Call : Type 0 where
  create_user : String → UserInput → Call
  commit_user : String → UserInput → Call
  update_user : String → String → UserPatch → Call
  reset_password : String → String → String → Call
  create_account : String → AccountInput → Call
  update_account : String → String → AccountPatch → Call
  delete_account : String → String → Call
  save_blob : String → String → String → Call
  get_blob : String → String → Call
  delete_blob : String → String → Call
  acquire_lease : String → String → String → Challenge → Call
  release_lease : ApiUser → String → String → Call
  heartbeat_lease : String → String → SessionRuntimeState → Call
  force_release : ApiUser → String → Call
  reap_sessions : Call
  register_device : String → DeviceInput → Call
  revoke_device : String → String → Call
  approve_device : String → String → Call
  touch_device : String → String → Option String → Call
  add_assignment : String → String → String → Option Expiry → Call
  revoke_assignment : String → String → String → Call
  record_audit : String → String → String → String → Payload → Call

-- what a call leaves, whether it returns or throws
unfoldable pub perform : Config → Moment → Call → Db → Db
perform c m (Call.create_user actor input) db = after (Users.create_user c.texts m actor input db)
perform c m (Call.commit_user actor input) db =
    after (Users.commit_new_user c.texts m actor input db)
perform c m (Call.update_user actor id input) db = after (Users.update_user m actor id input db)
perform c m (Call.reset_password actor id password) db =
    after (Users.commit_reset c.texts m actor id password db)
perform c m (Call.create_account actor input) db = after (Accounts.create_account m actor input db)
perform c m (Call.update_account actor id input) db =
    after (Accounts.update_account m actor id input db)
perform c m (Call.delete_account actor id) db = after (Accounts.delete_account m actor id db)
perform c m (Call.save_blob actor id blob) db =
    after (Blobs.save_account_session_blob c.cipher c.vault_key m actor id blob db)
perform c m (Call.get_blob user id) db =
    after (Blobs.get_account_session_blob c.cipher c.vault_key m user id db)
perform c m (Call.delete_blob actor id) db = after (Blobs.delete_account_session_blob m actor id db)
perform c m (Call.acquire_lease user account device options) db =
    after (Leases.acquire_lease m user account device options db)
perform c m (Call.release_lease actor id reason) db =
    after (Release.release_lease c.is_uuid m actor id reason db)
perform c m (Call.heartbeat_lease user id state) db =
    after (Release.heartbeat_lease m user id state db)
perform c m (Call.force_release actor account) db =
    after (Release.force_release_account m actor account db)
perform c m Call.reap_sessions db = after (Leases.reap_stale_sessions m db)
perform c m (Call.register_device user input) db = after (Devices.register_device m user input db)
perform c m (Call.revoke_device actor id) db = after (Devices.revoke_device m actor id db)
perform c m (Call.approve_device actor id) db = after (Devices.approve_device m actor id db)
perform c m (Call.touch_device user id version) db =
    after (Devices.touch_device m user id version db)
perform c m (Call.add_assignment actor account user expires) db =
    after (Assignments.add_assignment m actor account user expires db)
perform c m (Call.revoke_assignment actor account user) db =
    after (Assignments.revoke_assignment m actor account user db)
perform c m (Call.record_audit actor action type id payload) db =
    after (add_audit m actor action type id payload db)

-- a history, oldest call first
unfoldable pub run : Config → Db → List (Moment × Call) → Db
run c db [] = db
run c db ((m, call) ∷ rest) = run c (perform c m call db) rest

-- What every call keeps, every history keeps.
pub run_induction :
    (P : Db → Type 0) (c : Config)
    → ((m : Moment) (call : Call) (db : Db) → P db → P (perform c m call db))
    → (db : Db) (calls : List (Moment × Call)) → P db
    → P (run c db calls)
unfolding run
run_induction P c step db [] h = h
run_induction P c step db ((m, call) ∷ rest) h =
    run_induction P c step (perform c m call db) rest (step m call db h)
