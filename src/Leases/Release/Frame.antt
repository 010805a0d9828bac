-- ===== src/Leases/Release/Frame.antt =====
-- What an entry in the audit log and the end of a session keep, every way to end a lease keeps.
use laap.Base.{Bool, Option, String, none, some, ◌==◌}
use laap.Db.{Moment, update_sessions}
use laap.Exec.Keeps.{Keeps, keeps_rules}
use laap.Leases.Frame.{Frame, ended}
use laap.Leases.Release.{
  Beat, beat_result, beaten, end_lease, end_live_session, exit_lease, expire_lease,
  force_release_account, record_beat, refresh_lease, release_lease,
}
use laap.Schema.{Db, Session}
use laap.Types.{ApiUser, ReleaseReason, SessionRuntimeState}

module _ {P : Db → Type 0} (frame : Frame P) where
  end_lease-Keeps :
      (m : Moment) (actor : ApiUser) (session_id : String) (reason : ReleaseReason)
      → Keeps P (end_lease m actor session_id reason)
  unfolding end_lease
  end_lease-Keeps m actor session_id reason =
      search (keeps_rules, frame.audit, ended frame) depth 10

  pub release_lease-Keeps :
      (is_uuid : String → Bool) (m : Moment) (actor : ApiUser) (session_id reason : String)
      → Keeps P (release_lease is_uuid m actor session_id reason)
  unfolding release_lease
  release_lease-Keeps is_uuid m actor session_id reason = search (keeps_rules, end_lease-Keeps)

  pub expire_lease-Keeps :
      (m : Moment) (user_id : String) (s : Session) → Keeps P (expire_lease m user_id s)
  unfolding expire_lease
  expire_lease-Keeps m user_id s = search (keeps_rules, frame.audit, ended frame)

  pub beat_result-Keeps : (b : Beat) → Keeps P (beat_result b)
  unfolding beat_result
  beat_result-Keeps Beat.success = search keeps_rules
  beat_result-Keeps Beat.assignment_expired = search keeps_rules

  pub exit_lease-Keeps :
      (m : Moment) (user_id session_id : String) → Keeps P (exit_lease m user_id session_id)
  unfolding exit_lease
  exit_lease-Keeps m user_id session_id = search (keeps_rules, frame.audit, ended frame)

  -- The beat itself is left to the caller.
  pub record_beat-Keeps :
      (m : Moment) (user_id session_id : String) (state : SessionRuntimeState)
      → Keeps P (update_sessions (λ s. s.id == session_id) (beaten m.now state))
      → Keeps P (record_beat m user_id session_id state)
  unfolding record_beat refresh_lease
  record_beat-Keeps m user_id session_id state write =
      search (keeps_rules, exit_lease-Keeps) depth 8

  end_live_session-Keeps :
      (m : Moment) (actor_id account_id : String) (found : Option Session)
      → Keeps P (end_live_session m actor_id account_id found)
  unfolding end_live_session
  end_live_session-Keeps m actor_id account_id none = search keeps_rules
  end_live_session-Keeps m actor_id account_id (some s) =
      search (keeps_rules, frame.audit, ended frame)

  pub force_release_account-Keeps :
      (m : Moment) (actor : ApiUser) (account_id : String)
      → Keeps P (force_release_account m actor account_id)
  unfolding force_release_account
  force_release_account-Keeps m actor account_id =
      search (keeps_rules, frame.audit, end_live_session-Keeps) depth 10
