-- ===== src/Desktop/CloudLease/Operations.antt =====
-- The operations of `useCloudAccounts` on the lease (releaseLease, acquireAndLaunch, the restore
-- after a restart, the liveness check) and on the accounts.
pub mod Consistent
pub mod Heartbeats
pub mod Events
pub mod Launching
mod Tests
use Prim.Native.Char.{code}
use laap.Base.{
  Bool, Option, String, false, if◌then◌else◌, leb, none, not, some, true, ℕ, ◌&&◌, ◌+◌, ◌-◌, ◌==◌,
  ◌||◌, nat_eq, get_or,
}
use laap.Desktop.Action.{
  Act, Cause, attempt, error, finally, gets, modify, or_text, pure, throw, when, ◌>>=◌, ◌>>◌,
}
use laap.Desktop.CloudLease.{
  Call, Hook, LeaseUiState, PersistedLease, Reason, Stored, World, await, clear_local_lease,
  clear_persisted, cloud, load_accounts, set_error,
}

-- the inner `release` of `releaseLease`
pub release_held : World → String → Reason → Bool → Act Hook (Unit {0})
release_held w id reason confirmed = do
  set_error none
  finally (await (Call.release id reason) w.done) (clear_local_lease w confirmed)

release_session :
    World
    → ((Bool → Act Hook (Unit {0})) → Act Hook (Unit {0}))
    → Reason
    → Option String
    → Act Hook (Unit {0})
release_session w run reason none = pure tt
release_session w run Reason.manual (some id) = run (release_held w id Reason.manual)
release_session w run reason (some id) = release_held w id reason false

-- `releaseLease`
pub release_lease :
    World → ((Bool → Act Hook (Unit {0})) → Act Hook (Unit {0})) → Reason → Act Hook (Unit {0})
release_lease w run reason = do held ← gets (λ h. h.session_id); release_session w run reason held

-- `setItem` of `persistLease`
abbrev store_lease : World → Option String → String → String → Hook → Stored
store_lease w none session_id account_id h = h.stored
store_lease w (some user_id) session_id account_id h =
    if w.storage_works
    then Stored.lease (record {
      user_id = user_id;
      device_id = w.device_id;
      session_id = session_id;
      account_id = account_id;
    })
    else h.stored

-- `persistLease`, and `setLeaseState('ACTIVE')` after it
abbrev pub hold_lease : World → String → String → Hook → Hook
hold_lease w session_id account_id h = record h {
  owner = some session_id;
  session_id = some session_id;
  active_account_id = some account_id;
  lease_state = LeaseUiState.active;
  stored = store_lease w w.user session_id account_id h;
}

-- the catch of `acquireAndLaunch` where a lease was acquired
abbrev drop_lease : World → Hook → Hook
drop_lease w h = record h {
  session_id = none;
  active_account_id = none;
  lease_state = LeaseUiState.idle;
  stored = clear_persisted w h;
}

give_back : World → String → Cause → Act Hook (Unit {0})
give_back w session_id cause = do
  attempt (await (Call.release session_id Reason.error_reason) w.done) (λ _. pure tt)
  modify (drop_lease w)
  throw cause

-- from the answer to the request on
pub enter_client : World → String → Bool → Act Hook (Unit {0})
enter_client w session_id confirmed = do
  blob ← await (Call.session_blob session_id) w.text_of
  await (Call.switch_account_session blob confirmed (cloud session_id)) w.done
  load_accounts w

pub release_previous : World → Option String → Act Hook (Unit {0})
release_previous w none = pure tt
release_previous w (some id) = await (Call.release id Reason.manual) w.done

-- the action that `acquireAndLaunch` gives to `run`
pub launch : World → String → Bool → Act Hook (Unit {0})
launch w account_id confirmed =
    if not w.has_tauri
    then throw (error (or_text w.device_error "Desktop environment not detected."))
    else do
      set_error none
      held ← gets (λ h. h.session_id)
      release_previous w held
      session_id ← await (Call.acquire account_id w.device_id) w.text_of
      modify (hold_lease w session_id account_id)
      attempt (enter_client w session_id confirmed) (give_back w session_id)

-- `acquireAndLaunch`
pub acquire_and_launch :
    World → ((Bool → Act Hook (Unit {0})) → Act Hook (Unit {0})) → String → Act Hook (Unit {0})
acquire_and_launch w run account_id = run (launch w account_id)

abbrev resume : PersistedLease → Hook → Hook
resume p h = record h {
  owner = some p.session_id;
  session_id = some p.session_id;
  active_account_id = some p.account_id;
  lease_state = LeaseUiState.active;
}

restore_stored : World → String → Stored → Act Hook (Unit {0})
restore_stored w user_id Stored.nothing = pure tt
restore_stored w user_id Stored.corrupt = modify (λ h. record h { stored = clear_persisted w h })
restore_stored w user_id (Stored.lease p) = when (p.user_id == user_id) (do
  modify (resume p)
  attempt (await (Call.heartbeat p.session_id) w.done) (λ _. clear_local_lease w false))

restore_for : World → Option String → Option String → Act Hook (Unit {0})
restore_for w none held = pure tt
restore_for w (some user_id) (some id) = pure tt
restore_for w (some user_id) none = do
  stored ← gets (λ h. h.stored)
  restore_stored w user_id stored

-- the effect that restores a lease after a restart
pub restore_lease : World → Act Hook (Unit {0})
restore_lease w = do held ← gets (λ h. h.session_id); restore_for w w.user held

-- the start of the effect that checks the lease
abbrev pub start_watch : ℕ → Hook → Hook
start_watch now h = record h {
  riot_was_seen = false;
  launched_at = now;
  closed_checks = 0;
  missed_heartbeats = 0;
}

-- the letters A to Z for a to z, as the flag `i` takes them
abbrev fold : ℕ → ℕ
fold c = if leb 97 c && leb c 122 then c - 32 else c

abbrev begins : String → String → Bool
begins String.[] t = true
begins (String.◌∷◌ c p) String.[] = false
begins (String.◌∷◌ c p) (String.◌∷◌ d t) = nat_eq (fold (code c)) (fold (code d)) && begins p t

-- the text has the pattern in it, in upper or lower case
abbrev pub mentions : String → String → Bool
mentions p String.[] = begins p ""
mentions p (String.◌∷◌ c t) = begins p (String.◌∷◌ c t) || mentions p t

abbrev is_code : Option String → String → Bool
is_code none name = false
is_code (some c) name = c == name

abbrev tells : Cause → String → Bool
tells cause name = is_code cause.code name || mentions name cause.message

-- the server has ended the lease
unfoldable pub is_fatal : Cause → Bool
is_fatal cause =
    tells cause "SESSION_NOT_FOUND"
    || (tells cause "ASSIGNMENT_EXPIRED" || tells cause "UNAUTHENTICATED")

-- `setLeaseState('LEASE_LOST')` and what follows it
pub lose_lease : World → String → Act Hook (Unit {0})
lose_lease w message = do
  modify (λ h. record h { lease_state = LeaseUiState.lease_lost; shown_error = some message })
  clear_local_lease w false
  set_error (some message)

-- the catch of `tick`
pub missed : World → Cause → Act Hook (Unit {0})
missed w cause = do
  modify (λ h. record h { missed_heartbeats = h.missed_heartbeats + 1 })
  count ← gets (λ h. h.missed_heartbeats)
  if is_fatal cause
      then lose_lease w cause.message
      else when (leb 4 count) (lose_lease w cause.message)

beat : World → String → Act Hook (Unit {0})
beat w id = do await (Call.heartbeat id) w.done; modify (λ h. record h { missed_heartbeats = 0 })

-- Riot Client is not running: it was seen before, or half a minute has passed
closed_check : World → ℕ → String → Hook → Act Hook (Unit {0})
closed_check w now id h =
    if h.riot_was_seen || leb 30000 (now - h.launched_at)
    then (do
      modify (λ h. record h { closed_checks = h.closed_checks + 1 })
      count ← gets (λ h. h.closed_checks)
      if leb 2 count then release_held w id Reason.process_exit false else beat w id)
    else beat w id

check_riot : World → ℕ → String → Act Hook (Unit {0})
check_riot w now id = do
  is_running ← await Call.is_riot_running w.running
  h ← gets (λ h. h)
  if is_running
      then (do modify (λ h. record h { riot_was_seen = true; closed_checks = 0 }); beat w id)
      else closed_check w now id h

tick_of : World → ℕ → Option String → Act Hook (Unit {0})
tick_of w now none = pure tt
tick_of w now (some id) = when w.has_tauri (attempt (check_riot w now id) (missed w))

-- `tick`, for the session of the last render
pub tick : World → ℕ → Act Hook (Unit {0})
tick w now = do held ← gets (λ h. h.session_id); tick_of w now held
