-- ===== src/Desktop/CloudLease.antt =====
-- The lease that the desktop application holds:
-- apps/desktop/src/features/team-vault/useCloudAccounts.ts. The API and the Tauri commands answer by
-- the fields of `World`; the operations are taken one at a time, and a session id is not empty.
pub mod Frame
pub mod Operations
use laap.Base.{
  Bool, List, Option, String, [], false, if◌then◌else◌, is_some, none, some, true, ℕ, ◌++◌, ◌∷◌,
}
use laap.Desktop.Action.{
  as_text, concat, Act, Cause, attempt, finally, gets, modify, ok, pure, thrown, when, ◌>>=◌, ◌>>◌,
}

-- `LeaseUiState`
pub data LeaseUiState : Type 0 where
  idle active lease_lost : LeaseUiState

-- `Account` of lib/types.ts
pub record CloudAccount : Type 0 where
  pub id : String
  pub name : String
  pub region : String
  pub status : String
  pub has_session_blob : Bool

-- `PersistedLease`
pub record PersistedLease : Type 0 where
  pub user_id : String
  pub device_id : Option String
  pub session_id : String
  pub account_id : String

-- what localStorage has under `ACTIVE_LEASE_KEY`
pub data Stored : Type 0 where
  nothing corrupt : Stored
  lease : PersistedLease → Stored

-- the reasons of `releaseLease`, and 'error'
pub data Reason : Type 0 where
  manual logout process_exit lease_timeout error_reason : Reason

-- the requests and the Tauri commands
pub data Call : Type 0 where
  list_accounts : Call
  acquire : String → Option String → Call
  release : String → Reason → Call
  heartbeat session_blob delete_account force_release revoke_blob : String → Call
  upload_blob : String → String → Call
  is_riot_running : Call
  switch_account_session : String → Bool → String → Call
  cleanup_account_session : Bool → String → Call

pub data Answer (A : Type 0) : Type 0 where
  value : A → Answer A
  failed : Cause → Answer A

-- The answers may depend on all the calls so far.
pub record World : Type 0 where
  pub has_tauri : Bool
  pub storage_works : Bool
  pub user : Option String
  pub device_id : Option String
  pub device_error : Option String
  pub listed : Call → List Call → Answer (List CloudAccount)
  pub text_of : Call → List Call → Answer String
  pub running : Call → List Call → Answer Bool
  pub done : Call → List Call → Answer (Unit {0})

-- the state and the refs of the hook, the store, and the calls made
pub record Hook : Type 0 where
  pub accounts : List CloudAccount
  pub loading : Bool
  pub shown_error : Option String
  pub session_id : Option String
  pub active_account_id : Option String
  pub lease_state : LeaseUiState
  pub owner : Option String
  pub stored : Stored
  pub missed_heartbeats : ℕ
  pub riot_was_seen : Bool
  pub launched_at : ℕ
  pub closed_checks : ℕ
  pub calls : List Call

abbrev pub unless_failed : {A : Type 0} → Answer A → Act Hook A
unless_failed (value a) h = ok a h
unless_failed (failed c) h = thrown c h

-- `await`: the call is made, and answered
unfoldable pub await : {A : Type 0} → Call → (Call → List Call → Answer A) → Act Hook A
await c answer h = unless_failed (answer c h.calls) (record h { calls = h.calls ++ c ∷ [] })

abbrev pub set_error : Option String → Act Hook (Unit {0})
set_error e = modify (λ h. record h { shown_error = e })

abbrev set_accounts : List CloudAccount → Act Hook (Unit {0})
set_accounts xs = modify (λ h. record h { accounts = xs })

-- `loadAccounts`, with no other one under way
pub load_accounts : World → Act Hook (Unit {0})
load_accounts w =
    if is_some w.user
    then (do
      modify (λ h. record h { loading = true; shown_error = none })
      finally
          (attempt (do found ← await Call.list_accounts w.listed; set_accounts found)
            λ cause. set_accounts [] >> set_error (some cause.message))
          (modify (λ h. record h { loading = false })))
    else modify (λ h. record h { accounts = []; shown_error = none })

-- `clearPersistedLease`
abbrev pub clear_persisted : World → Hook → Stored
clear_persisted w h = if w.storage_works then Stored.nothing else h.stored

-- the assignments at the start of `clearLocalLease`
abbrev pub forget_lease : World → Hook → Hook
forget_lease w h = record h {
  owner = none;
  session_id = none;
  active_account_id = none;
  lease_state = LeaseUiState.idle;
  stored = clear_persisted w h;
}

-- `cloud:${owner}`
abbrev pub cloud : String → String
cloud owner = concat "cloud:" owner

-- the warning, where the settings could not be restored
abbrev not_restored : Cause → Act Hook (Option String)
not_restored cause =
    pure (some (concat "Lease ended, but Riot settings could not be restored: " (as_text cause)))

restore_riot : World → Bool → Option String → Act Hook (Option String)
restore_riot w confirmed none = pure none
restore_riot w confirmed (some owner) =
    if w.has_tauri
    then attempt (do await (Call.cleanup_account_session confirmed (cloud owner)) w.done; pure none)
        not_restored
    else pure none

-- `clearLocalLease`
pub clear_local_lease : World → Bool → Act Hook (Unit {0})
clear_local_lease w confirmed = do
  owner ← gets (λ h. h.owner)
  modify (forget_lease w)
  warning ← restore_riot w confirmed owner
  load_accounts w
  when (is_some warning) (set_error warning)
