-- ===== src/Service/Statements.antt =====
-- What every statement keeps, every call keeps.
use laap.Base.{List, String}
use laap.Accounts.Blobs.Frame.{
  delete_account_session_blob-Keeps, get_account_session_blob-Keeps,
  save_account_session_blob-Keeps,
}
use laap.Accounts.Statements.{create_account-Keeps, delete_account-Keeps, update_account-Keeps}
use laap.Assignments.Statements.{add_assignment-Keeps, revoke_assignment-Keeps}
use laap.Db.{Moment}
use laap.Devices.Statements.{
  approve_device-Keeps, register_device-Keeps, revoke_device-Keeps, touch_device-Keeps,
}
use laap.Exec.Keeps.{Keeps}
use laap.Leases.Frame.{reap_stale_sessions-Keeps}
use laap.Leases.Release.Frame.{force_release_account-Keeps, release_lease-Keeps}
use laap.Leases.Release.Statements.{heartbeat_lease-Keeps}
use laap.Leases.Statements.{acquire_lease-Keeps}
use laap.Schema.{Db}
use laap.Service.{Call, Config, perform, run, run_induction}
use laap.Statements.{Statements, statements-BlobFrame, statements-Frame}
use laap.Users.{Texts, UserPatch, commit_reset, update_user}
use laap.Users.Statements.{commit_new_user-Keeps, create_user-Keeps}

module _ {P : Db → Type 0} (st : Statements P)
    (update : (m : Moment) (actor_id user_id : String) (input : UserPatch)
      → Keeps P (update_user m actor_id user_id input))
    (reset : (t : Texts) (m : Moment) (actor_id user_id password : String)
      → Keeps P (commit_reset t m actor_id user_id password)) where
  pub perform-Keeps :
      (c : Config) (m : Moment) (call : Call) (db : Db) → P db → P (perform c m call db)
  unfolding perform
  perform-Keeps c m (Call.create_user a b) db h = (create_user-Keeps st c.texts m a b).at db h
  perform-Keeps c m (Call.commit_user a b) db h = (commit_new_user-Keeps st c.texts m a b).at db h
  perform-Keeps c m (Call.update_user a b i) db h = (update m a b i).at db h
  perform-Keeps c m (Call.reset_password a b p) db h = (reset c.texts m a b p).at db h
  perform-Keeps c m (Call.create_account a i) db h = (create_account-Keeps st m a i).at db h
  perform-Keeps c m (Call.update_account a b i) db h = (update_account-Keeps st m a b i).at db h
  perform-Keeps c m (Call.delete_account a b) db h = (delete_account-Keeps st m a b).at db h
  perform-Keeps c m (Call.save_blob a b i) db h =
      (save_account_session_blob-Keeps (statements-BlobFrame st) c.cipher c.vault_key m a b i).at db
        h
  perform-Keeps c m (Call.get_blob a b) db h =
      (get_account_session_blob-Keeps (statements-BlobFrame st) c.cipher c.vault_key m a b).at db h
  perform-Keeps c m (Call.delete_blob a b) db h =
      (delete_account_session_blob-Keeps (statements-BlobFrame st) m a b).at db h
  perform-Keeps c m (Call.acquire_lease u a d o) db h = (acquire_lease-Keeps st m u a d o).at db h
  perform-Keeps c m (Call.release_lease a s r) db h =
      (release_lease-Keeps (statements-Frame st) c.is_uuid m a s r).at db h
  perform-Keeps c m (Call.heartbeat_lease u s r) db h = (heartbeat_lease-Keeps st m u s r).at db h
  perform-Keeps c m (Call.force_release a b) db h =
      (force_release_account-Keeps (statements-Frame st) m a b).at db h
  perform-Keeps c m Call.reap_sessions db h =
      (reap_stale_sessions-Keeps (statements-Frame st) m).at db h
  perform-Keeps c m (Call.register_device u i) db h = (register_device-Keeps st m u i).at db h
  perform-Keeps c m (Call.revoke_device a d) db h = (revoke_device-Keeps st m a d).at db h
  perform-Keeps c m (Call.approve_device a d) db h = (approve_device-Keeps st m a d).at db h
  perform-Keeps c m (Call.touch_device u d v) db h = (touch_device-Keeps st m u d v).at db h
  perform-Keeps c m (Call.add_assignment a b u e) db h = (add_assignment-Keeps st m a b u e).at db h
  perform-Keeps c m (Call.revoke_assignment a b u) db h =
      (revoke_assignment-Keeps st m a b u).at db h
  perform-Keeps c m (Call.record_audit a n t i p) db h = (st.audit m a n t i p).at db h

  pub run-Keeps : (c : Config) (db : Db) (calls : List (Moment × Call)) → P db → P (run c db calls)
  run-Keeps c db calls = run_induction P c (perform-Keeps c) db calls
