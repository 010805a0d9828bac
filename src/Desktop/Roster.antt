-- ===== src/Desktop/Roster.antt =====
-- The local profiles: apps/desktop/src/features/personal-roster/useLocalAccounts.ts. An operation that
-- awaits is split there: what it does up to the wait, and what it does with the answer, given the
-- number that it read before. So the events of a run may interleave the operations in any way.
pub mod Newest
pub mod Sandbox
mod Tests
use laap.Base.{
  Bool, List, Option, String, [], false, if◌then◌else◌, is_some, nat_eq, none, not, some, true, ℕ,
  ◌&&◌, ◌+◌, ◌++◌, ◌==◌, ◌||◌, ◌∷◌,
}
use laap.Desktop.Action.{Cause, as_text, concat}

-- `LocalAccountSummary`
pub record Profile : Type 0 where
  pub id : String
  pub name : String
  pub rank : Option String
  pub auto_sync_icon : Bool
  pub auto_sync_rank : Bool

pub data SyncState : Type 0 where
  idle syncing waiting success error_state : SyncState

pub data Answer (A : Type 0) : Type 0 where
  value : A → Answer A
  failed : Cause → Answer A

-- what `sync_profile_customizations` answers
pub record SyncResult : Type 0 where
  pub changed : Bool
  pub message : Option String
  pub state : Option SyncState

-- the state and the refs of the hook, and the sign-ins that it has asked to cancel
pub record Roster : Type 0 where
  pub accounts : List Profile
  pub loading : Bool
  pub shown_error : Option String
  pub provisioning : Bool
  pub ticket : Option String
  pub generation : ℕ
  pub requests : ℕ
  pub mounted : Bool
  pub sync_message : Option String
  pub sync_state : SyncState
  pub last_sync_at : Option ℕ
  pub last_successful_sync_at : Option ℕ
  pub sync_pending : Bool
  pub sync_epoch : ℕ
  pub cancelled : List String

-- `loadAccounts` up to the wait; its number is then `requests`
pub begin_load : Roster → Roster
begin_load r = record r { requests = r.requests + 1; loading = true; shown_error = none }

abbrev pub listed : Answer (List Profile) → List Profile
listed (value accounts) = accounts
listed (failed c) = []

-- `asError`
abbrev pub error_of : Answer (List Profile) → Option String
error_of (value accounts) = none
error_of (failed c) = some c.message

-- `setLocalAccounts`, or the catch; and the finally
abbrev show_answer : Answer (List Profile) → Roster → Roster
show_answer (value accounts) r = record r { accounts = accounts; loading = false }
show_answer (failed c) r = record r { accounts = []; shown_error = some c.message; loading = false }

-- the rest of `loadAccounts`; that Tauri is not there is an answer that failed
pub settle_load : ℕ → Answer (List Profile) → Roster → Roster
settle_load request answer r =
    if r.mounted && nat_eq request r.requests then show_answer answer r else r

-- `syncNow` up to the wait; its number is then `sync_epoch`
pub begin_sync : Bool → Roster → Roster
begin_sync busy r = if r.sync_pending || busy then r else record r {
  sync_pending = true;
  sync_state = SyncState.syncing;
  sync_message = some "Syncing enabled icons and Solo/Duo ranks from League Client…";
}

abbrev is_current : ℕ → Roster → Bool
is_current epoch r = r.mounted && nat_eq epoch r.sync_epoch

-- the finally of `syncNow`
pub finish_sync : ℕ → Roster → Roster
finish_sync epoch r =
    if r.mounted && not (nat_eq epoch r.sync_epoch)
    then record r {
      sync_pending = false;
      sync_state = SyncState.waiting;
      sync_message = some "Sync options changed. Use Sync now to check the saved settings.";
    }
    else record r { sync_pending = false }

abbrev state_of : SyncResult → SyncState
state_of s = elim s.state [
  | some state ↦ state
  | none ↦ if is_some s.message then SyncState.waiting else SyncState.success
]

abbrev message_of : Option String → String
message_of none = "Enabled profile data is up to date."
message_of (some m) = m

abbrev success_at : ℕ → Option SyncState → Option ℕ → Option ℕ
success_at now (some SyncState.success) before = some now
success_at now state before = before

abbrev note_sync : ℕ → SyncResult → Roster → Roster
note_sync now s r = record r {
  sync_state = state_of s;
  sync_message = some (message_of s.message);
  last_sync_at = some now;
  last_successful_sync_at = success_at now s.state r.last_successful_sync_at;
}

abbrev sync_failure : Bool → Cause → String
sync_failure synced c =
    if synced
    then concat "Profile data synced, but the roster could not refresh: "
        (concat (as_text c) ". Use Refresh Accounts.")
    else concat "Sync failed: " (concat (as_text c) ". Saved data was kept. Try Sync now again.")

-- the catch of `syncNow`
abbrev fail_sync : ℕ → ℕ → Bool → Cause → Roster → Roster
fail_sync epoch now synced c r =
    if is_current epoch r
    then record r {
      sync_state = SyncState.error_state;
      sync_message = some (sync_failure synced c);
      last_sync_at = some now;
    }
    else r

-- what `syncNow` does with the answer of the sync; where profiles changed it waits for the list
pub settle_sync : ℕ → ℕ → Answer SyncResult → Roster → Roster
settle_sync epoch now (failed c) r = finish_sync epoch (fail_sync epoch now false c r)
settle_sync epoch now (value s) r =
    if is_current epoch r
    then (if s.changed then note_sync now s r else finish_sync epoch (note_sync now s r))
    else finish_sync epoch r

-- and with the list
pub settle_refresh : ℕ → ℕ → Answer (List Profile) → Roster → Roster
settle_refresh epoch now (failed c) r = finish_sync epoch (fail_sync epoch now true c r)
settle_refresh epoch now (value accounts) r =
    finish_sync epoch (if is_current epoch r then record r { accounts = accounts } else r)

abbrev end_options : Bool → Roster → Roster
end_options before r = if before then record r { sync_epoch = r.sync_epoch + 1 } else r

-- the effect on `syncSignature`: the end of the one before, where there was one, and the new one
pub change_options : Bool → Bool → Bool → Roster → Roster
change_options before now busy r =
    let t = end_options before r in
    if now then begin_sync busy t else record t { sync_message = none; sync_state = SyncState.idle }

-- the listener for 'laap:provisioning', while it listens
pub provisioning_ended : Roster → Roster
provisioning_ended r =
    if r.mounted
    then record r { generation = r.generation + 1; ticket = none; provisioning = false }
    else r

-- `startSandbox` up to the wait; its number is then `generation`
pub begin_start : Roster → Roster
begin_start r = record r { generation = r.generation + 1 }

-- the rest of `startSandbox`, once the sign-in `id` is open
pub settle_start : ℕ → String → Roster → Roster
settle_start version id r =
    if not r.mounted || not (nat_eq version r.generation)
    then record r { cancelled = r.cancelled ++ id ∷ [] }
    else record r { ticket = some id; provisioning = true }

abbrev ask_cancel : Option String → Roster → Roster
ask_cancel none r = r
ask_cancel (some id) r = record r { cancelled = r.cancelled ++ id ∷ [] }

-- `cancelSandbox` up to the wait
pub begin_cancel : Roster → Roster
begin_cancel r = ask_cancel r.ticket (record r { generation = r.generation + 1 })

abbrev same_ticket : Option String → String → Bool
same_ticket none owned = false
same_ticket (some t) owned = t == owned

abbrev drop_ticket : String → Roster → Roster
drop_ticket owned r = record r { ticket = if same_ticket r.ticket owned then none else r.ticket }

abbrev not_provisioning : Roster → Roster
not_provisioning r = record r { provisioning = if r.mounted then false else r.provisioning }

-- the rest of `cancelSandbox`, once the sign-in that it owned is cancelled
pub settle_cancel : Option String → Roster → Roster
settle_cancel none r = not_provisioning r
settle_cancel (some owned) r = provisioning_ended (not_provisioning (drop_ticket owned r))

-- the rest of `completeSandbox`
pub settle_complete : Roster → Roster
settle_complete r =
    begin_load (provisioning_ended (record r { ticket = none; provisioning = false }))

-- the ends of the effects
pub unmount : Bool → Roster → Roster
unmount before r =
    end_options before (begin_cancel (record r { mounted = false; requests = r.requests + 1 }))

pub data Event : Type 0 where
  load start cancel complete ended : Event
  load_answers : ℕ → Answer (List Profile) → Event
  sync leave : Bool → Event
  sync_answers : ℕ → ℕ → Answer SyncResult → Event
  refresh_answers : ℕ → ℕ → Answer (List Profile) → Event
  options : Bool → Bool → Bool → Event
  started : ℕ → String → Event
  was_cancelled : Option String → Event

pub perform : Event → Roster → Roster
perform load r = begin_load r
perform start r = begin_start r
perform cancel r = begin_cancel r
perform complete r = settle_complete r
perform ended r = provisioning_ended r
perform (leave before) r = unmount before r
perform (load_answers request answer) r = settle_load request answer r
perform (sync busy) r = begin_sync busy r
perform (sync_answers epoch now answer) r = settle_sync epoch now answer r
perform (refresh_answers epoch now answer) r = settle_refresh epoch now answer r
perform (options before now busy) r = change_options before now busy r
perform (started version id) r = settle_start version id r
perform (was_cancelled owned) r = settle_cancel owned r

pub run : List Event → Roster → Roster
run [] r = r
run (e ∷ events) r = run events (perform e r)
