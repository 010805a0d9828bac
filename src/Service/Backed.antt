-- ===== src/Service/Backed.antt =====
-- The lease invariant holds after any history.
use laap.Base.{List}
use laap.Accounts.Backed.{AllBacked-blobs, create_account-AllBacked}
use laap.Accounts.Blobs.Frame.{
  delete_account_session_blob-Keeps, get_account_session_blob-Keeps,
  save_account_session_blob-Keeps,
}
use laap.Accounts.Offline.{update_account-AllBacked}
use laap.Accounts.Removal.{delete_account-AllBacked}
use laap.Assignments.Backed.{add_assignment-AllBacked, revoke_assignment-AllBacked}
use laap.Db.{Moment}
use laap.Db.WellFormed.{WellFormed}
use laap.Devices.Backed.{
  approve_device-AllBacked, register_device-AllBacked, touch_device-AllBacked,
}
use laap.Devices.Revoke.{revoke_device-AllBacked}
use laap.Leases.Acquire.{acquire_lease-AllBacked}
use laap.Leases.Backed.{AllBacked, AllBacked-frame, add_audit-AllBacked}
use laap.Leases.Frame.{reap_stale_sessions-Keeps}
use laap.Leases.Release.Backed.{heartbeat_lease-AllBacked}
use laap.Leases.Release.Frame.{force_release_account-Keeps, release_lease-Keeps}
use laap.Schema.{Db}
use laap.Service.{Call, Config, perform, run, run_induction}
use laap.Service.WellFormed.{perform-WellFormed}
use laap.Users.Backed.{
  commit_new_user-AllBacked, commit_reset-AllBacked, create_user-AllBacked, update_user-AllBacked,
}

perform-AllBacked :
    (c : Config) (m : Moment) (call : Call) (db : Db)
    → WellFormed db
    → AllBacked db
    → AllBacked (perform c m call db)
unfolding perform
perform-AllBacked c m (Call.create_user a b) db w h = (create_user-AllBacked c.texts m a b).at db h
perform-AllBacked c m (Call.commit_user a b) db w h =
    (commit_new_user-AllBacked c.texts m a b).at db h
perform-AllBacked c m (Call.update_user a b i) db w h = (update_user-AllBacked m a b i).at db h
perform-AllBacked c m (Call.reset_password a b p) db w h =
    (commit_reset-AllBacked c.texts m a b p).at db h
perform-AllBacked c m (Call.create_account a i) db w h = (create_account-AllBacked m a i).at db h
perform-AllBacked c m (Call.update_account a b i) db w h =
    (update_account-AllBacked m a b i).at db h
perform-AllBacked c m (Call.delete_account a b) db w h = (delete_account-AllBacked m a b).at db h
perform-AllBacked c m (Call.save_blob a b i) db w h =
    (save_account_session_blob-Keeps AllBacked-blobs c.cipher c.vault_key m a b i).at db h
perform-AllBacked c m (Call.get_blob a b) db w h =
    (get_account_session_blob-Keeps AllBacked-blobs c.cipher c.vault_key m a b).at db h
perform-AllBacked c m (Call.delete_blob a b) db w h =
    (delete_account_session_blob-Keeps AllBacked-blobs m a b).at db h
perform-AllBacked c m (Call.acquire_lease u a d o) db w h =
    (acquire_lease-AllBacked m u a d o).at db h
perform-AllBacked c m (Call.release_lease a s r) db w h =
    (release_lease-Keeps AllBacked-frame c.is_uuid m a s r).at db h
perform-AllBacked c m (Call.heartbeat_lease u s r) db w h = heartbeat_lease-AllBacked m u s r db w h
perform-AllBacked c m (Call.force_release a b) db w h =
    (force_release_account-Keeps AllBacked-frame m a b).at db h
perform-AllBacked c m Call.reap_sessions db w h =
    (reap_stale_sessions-Keeps AllBacked-frame m).at db h
perform-AllBacked c m (Call.register_device u i) db w h = (register_device-AllBacked m u i).at db h
perform-AllBacked c m (Call.revoke_device a d) db w h = (revoke_device-AllBacked m a d).at db h
perform-AllBacked c m (Call.approve_device a d) db w h = (approve_device-AllBacked m a d).at db h
perform-AllBacked c m (Call.touch_device u d v) db w h = (touch_device-AllBacked m u d v).at db h
perform-AllBacked c m (Call.add_assignment a b u e) db w h =
    (add_assignment-AllBacked m a b u e).at db h
perform-AllBacked c m (Call.revoke_assignment a b u) db w h =
    (revoke_assignment-AllBacked m a b u).at db h
perform-AllBacked c m (Call.record_audit a n t i p) db w h =
    (add_audit-AllBacked m a n t i p).at db h

-- After any history of calls that starts with the constraints met and every live session backed,
-- every live session is still on an account that exists and is available, and on an active device
-- of the session's user: no call takes an account, a device or a status from the holder of a
-- lease without ending it.
pub run-AllBacked :
    (c : Config) (db : Db) (calls : List (Moment × Call))
    → WellFormed db
    → AllBacked db
    → AllBacked (run c db calls)
run-AllBacked c db calls w h =
    (run_induction (λ d. WellFormed d × AllBacked d) c
      (λ m call d (w', h'). (perform-WellFormed c m call d w', perform-AllBacked c m call d w' h'))
      db calls (w, h)).1
