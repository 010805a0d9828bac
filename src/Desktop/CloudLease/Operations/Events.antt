-- ===== src/Desktop/CloudLease/Operations/Events.antt =====
-- The hook over time: what the user, the effects and the timers of `useCloudAccounts` do.
use laap.Base.{Bool, List, Option, String, [], none, some, false, true, ℕ, ◌∷◌}
use laap.Desktop.Action.{Act, Cause, as_text, attempt, left, modify, throw, ◌>>◌}
use laap.Desktop.Action.Holds.{Holds, Holds-modify, holds_rules}
use laap.Desktop.CloudLease.{
  Call, Hook, LeaseUiState, Reason, Stored, World, await, load_accounts, set_error,
}
use laap.Desktop.CloudLease.Frame.{await-Holds, load_accounts-Holds, set_error-Holds}
use laap.Desktop.CloudLease.Operations.{
  acquire_and_launch, release_lease, release_session, restore_lease, start_watch, tick,
}
use laap.Desktop.CloudLease.Operations.Consistent.{
  Consistent, Consistent-frame, launch-Holds, release_held-Holds, restore_lease-Holds, tick-Holds,
}

-- What `run` of the Riot operations does with an action: it refuses, or tells it whether the user has
-- confirmed, and may try again where the action asks for it.
pub data Gate : Type 0 where
  refused : Cause → Gate
  once : Bool → Gate
  again : Gate

abbrev pub through : Gate → (Bool → Act Hook (Unit {0})) → Act Hook (Unit {0})
through (refused c) action = throw c
through (once confirmed) action = action confirmed
through again action = attempt (action false) (λ _. action true)

-- the effects on sign-out and on 'laap:logout'
pub release_on_logout : World → Act Hook (Unit {0})
release_on_logout w =
    attempt (release_lease w (through (once false)) Reason.logout)
      λ cause. set_error (some (as_text cause))

-- `deleteCloudAccount`, `forceReleaseCloudAccount` and `revokeCloudSessionBlob`
pub change_and_reload : World → Call → Act Hook (Unit {0})
change_and_reload w c = do set_error none; await c w.done; load_accounts w

-- `uploadSessionBlob`
pub upload_session_blob : World → String → String → Act Hook (Unit {0})
upload_session_blob w account_id blob = do
  set_error none
  await (Call.upload_blob account_id blob) w.done

pub data Event : Type 0 where
  load logout restore : Event
  launch_account : Gate → String → Event
  release_by : Gate → Reason → Event
  watch tick_at : ℕ → Event
  delete_account force_release revoke_blob : String → Event
  upload : String → String → Event

pub perform : World → Event → Act Hook (Unit {0})
perform w load = load_accounts w
perform w logout = release_on_logout w
perform w restore = restore_lease w
perform w (launch_account gate account_id) = acquire_and_launch w (through gate) account_id
perform w (release_by gate reason) = release_lease w (through gate) reason
perform w (watch now) = modify (start_watch now)
perform w (tick_at now) = tick w now
perform w (delete_account id) = change_and_reload w (Call.delete_account id)
perform w (force_release id) = change_and_reload w (Call.force_release id)
perform w (revoke_blob id) = change_and_reload w (Call.revoke_blob id)
perform w (upload id blob) = upload_session_blob w id blob

-- each event with the world it meets
pub run : List (World × Event) → Hook → Hook
run [] h = h
run ((w, e) ∷ events) h = run events (left (perform w e h))

-- the hook when it is mounted
abbrev pub mounted : Stored → Hook
mounted stored = record {
  accounts = [];
  loading = false;
  shown_error = none;
  session_id = none;
  active_account_id = none;
  lease_state = LeaseUiState.idle;
  owner = none;
  stored = stored;
  missed_heartbeats = 0;
  riot_was_seen = false;
  launched_at = 0;
  closed_checks = 0;
  calls = [];
}

ruleset steps = (holds_rules, Holds-modify)

through-Holds :
    (gate : Gate) (action : Bool → Act Hook (Unit {0}))
    → ((confirmed : Bool) → Holds Consistent (action confirmed))
    → Holds Consistent (through gate action)
through-Holds (refused c) action k = search steps
through-Holds (once confirmed) action k = k confirmed
through-Holds again action k = search (steps, k)

release_session-Holds :
    (w : World) (gate : Gate) (reason : Reason) (held : Option String)
    → Holds Consistent (release_session w (through gate) reason held)
unfolding release_session
release_session-Holds w gate reason none = search steps
release_session-Holds w gate Reason.manual (some id) =
    through-Holds gate _ (release_held-Holds w id Reason.manual)
release_session-Holds w gate Reason.logout (some id) = release_held-Holds w id _ false
release_session-Holds w gate Reason.process_exit (some id) = release_held-Holds w id _ false
release_session-Holds w gate Reason.lease_timeout (some id) = release_held-Holds w id _ false
release_session-Holds w gate Reason.error_reason (some id) = release_held-Holds w id _ false

release_lease-Holds :
    (w : World) (gate : Gate) (reason : Reason)
    → Holds Consistent (release_lease w (through gate) reason)
unfolding release_lease
release_lease-Holds w gate reason = search (steps, release_session-Holds)

change_and_reload-Holds : (w : World) (c : Call) → Holds Consistent (change_and_reload w c)
unfolding change_and_reload
change_and_reload-Holds w c =
    search
      (
        steps,
        set_error-Holds Consistent-frame,
        await-Holds Consistent-frame,
        load_accounts-Holds Consistent-frame,
      )
      depth 12

perform-Consistent : (w : World) (e : Event) → Holds Consistent (perform w e)
unfolding perform acquire_and_launch upload_session_blob release_on_logout
perform-Consistent w load = load_accounts-Holds Consistent-frame w
perform-Consistent w logout = search (steps, release_lease-Holds, set_error-Holds Consistent-frame)
perform-Consistent w restore = restore_lease-Holds w
perform-Consistent w (launch_account gate id) = through-Holds gate _ (launch-Holds w id)
perform-Consistent w (release_by gate reason) = release_lease-Holds w gate reason
perform-Consistent w (watch now) = Holds-modify _ (λ h k. k)
perform-Consistent w (tick_at now) = tick-Holds w now
perform-Consistent w (delete_account id) = change_and_reload-Holds w _
perform-Consistent w (force_release id) = change_and_reload-Holds w _
perform-Consistent w (revoke_blob id) = change_and_reload-Holds w _
perform-Consistent w (upload id blob) =
    search (steps, set_error-Holds Consistent-frame, await-Holds Consistent-frame)

-- After any events, whatever the API and the Tauri commands answer: without a session the hook names no account
-- and is idle; with one it names an account, is active and owns the Riot settings for that session.
-- So `LEASE_LOST` is never left standing.
pub run-Consistent :
    (events : List (World × Event)) (h : Hook) → Consistent h → Consistent (run events h)
unfolding run
run-Consistent [] h k = k
run-Consistent ((w, e) ∷ events) h k =
    run-Consistent events (left (perform w e h)) ((perform-Consistent w e).at h k)
