-- ===== src/Service/Calls.antt =====
-- A property that every call keeps, method by method.
use laap.Base.{Option, String}
use laap.Accounts.{AccountInput, AccountPatch, create_account, delete_account, update_account}
use laap.Accounts.Blobs.{
  delete_account_session_blob, get_account_session_blob, save_account_session_blob,
}
use laap.Assignments.{add_assignment, revoke_assignment}
use laap.Db.{Moment}
use laap.Devices.{DeviceInput, approve_device, register_device, revoke_device, touch_device}
use laap.Exec.Keeps.{Keeps}
use laap.Leases.{Challenge, acquire_lease, reap_stale_sessions}
use laap.Leases.Release.{force_release_account, heartbeat_lease, release_lease}
use laap.Schema.{Expiry, Db}
use laap.Service.{Call, Config, perform}
use laap.Types.{ApiUser, SessionRuntimeState}
use laap.Users.{UserInput, UserPatch, commit_reset, create_user, update_user}

-- every call of `LaapService` keeps `P`
pub record CallInvariant (c : Config) (P : Db → Type 0) : Type 0 where
  pub step : (m : Moment) (call : Call) (db : Db) → P db → P (perform c m call db)

module _ {c : Config} {P : Db → Type 0} (inv : CallInvariant c P) where
  pub create_user_kept :
      (m : Moment) (a : String) (i : UserInput) → Keeps P (create_user c.texts m a i)
  unfolding perform
  create_user_kept m a i = record { at = inv.step m (Call.create_user a i) }

  pub update_user_kept : (m : Moment) (a u : String) (i : UserPatch) → Keeps P (update_user m a u i)
  unfolding perform
  update_user_kept m a u i = record { at = inv.step m (Call.update_user a u i) }

  pub commit_reset_kept : (m : Moment) (a u p : String) → Keeps P (commit_reset c.texts m a u p)
  unfolding perform
  commit_reset_kept m a u p = record { at = inv.step m (Call.reset_password a u p) }

  pub create_account_kept :
      (m : Moment) (a : String) (i : AccountInput) → Keeps P (create_account m a i)
  unfolding perform
  create_account_kept m a i = record { at = inv.step m (Call.create_account a i) }

  pub update_account_kept :
      (m : Moment) (a id : String) (i : AccountPatch) → Keeps P (update_account m a id i)
  unfolding perform
  update_account_kept m a id i = record { at = inv.step m (Call.update_account a id i) }

  pub delete_account_kept : (m : Moment) (a id : String) → Keeps P (delete_account m a id)
  unfolding perform
  delete_account_kept m a id = record { at = inv.step m (Call.delete_account a id) }

  pub save_blob_kept :
      (m : Moment) (a id b : String)
      → Keeps P (save_account_session_blob c.cipher c.vault_key m a id b)
  unfolding perform
  save_blob_kept m a id b = record { at = inv.step m (Call.save_blob a id b) }

  pub get_blob_kept :
      (m : Moment) (u id : String) → Keeps P (get_account_session_blob c.cipher c.vault_key m u id)
  unfolding perform
  get_blob_kept m u id = record { at = inv.step m (Call.get_blob u id) }

  pub delete_blob_kept : (m : Moment) (a id : String) → Keeps P (delete_account_session_blob m a id)
  unfolding perform
  delete_blob_kept m a id = record { at = inv.step m (Call.delete_blob a id) }

  pub acquire_lease_kept :
      (m : Moment) (u a d : String) (o : Challenge) → Keeps P (acquire_lease m u a d o)
  unfolding perform
  acquire_lease_kept m u a d o = record { at = inv.step m (Call.acquire_lease u a d o) }

  pub release_lease_kept :
      (m : Moment) (u : ApiUser) (s r : String) → Keeps P (release_lease c.is_uuid m u s r)
  unfolding perform
  release_lease_kept m u s r = record { at = inv.step m (Call.release_lease u s r) }

  pub heartbeat_lease_kept :
      (m : Moment) (u s : String) (r : SessionRuntimeState) → Keeps P (heartbeat_lease m u s r)
  unfolding perform
  heartbeat_lease_kept m u s r = record { at = inv.step m (Call.heartbeat_lease u s r) }

  pub force_release_kept :
      (m : Moment) (u : ApiUser) (a : String) → Keeps P (force_release_account m u a)
  unfolding perform
  force_release_kept m u a = record { at = inv.step m (Call.force_release u a) }

  pub reap_kept : (m : Moment) → Keeps P (reap_stale_sessions m)
  unfolding perform
  reap_kept m = record { at = inv.step m Call.reap_sessions }

  pub register_device_kept :
      (m : Moment) (u : String) (i : DeviceInput) → Keeps P (register_device m u i)
  unfolding perform
  register_device_kept m u i = record { at = inv.step m (Call.register_device u i) }

  pub revoke_device_kept : (m : Moment) (a d : String) → Keeps P (revoke_device m a d)
  unfolding perform
  revoke_device_kept m a d = record { at = inv.step m (Call.revoke_device a d) }

  pub approve_device_kept : (m : Moment) (a d : String) → Keeps P (approve_device m a d)
  unfolding perform
  approve_device_kept m a d = record { at = inv.step m (Call.approve_device a d) }

  pub touch_device_kept :
      (m : Moment) (u d : String) (v : Option String) → Keeps P (touch_device m u d v)
  unfolding perform
  touch_device_kept m u d v = record { at = inv.step m (Call.touch_device u d v) }

  pub add_assignment_kept :
      (m : Moment) (a id u : String) (e : Option Expiry) → Keeps P (add_assignment m a id u e)
  unfolding perform
  add_assignment_kept m a id u e = record { at = inv.step m (Call.add_assignment a id u e) }

  pub revoke_assignment_kept : (m : Moment) (a id u : String) → Keeps P (revoke_assignment m a id u)
  unfolding perform
  revoke_assignment_kept m a id u = record { at = inv.step m (Call.revoke_assignment a id u) }
