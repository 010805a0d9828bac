-- ===== src/Leases/Backed.antt =====
-- Who may hold a lease: every live session is on an available account, and on an active device of
-- the session's user. What one statement does to this.
use laap.Base.{
  All, All-weaken, Bool, List, String, arith, false, is_some, not, true, ℕ, ◌&&◌, ◌==◌, ◌||◌, ◌≡◌,
}
use laap.Audit.{add_audit, add_audit-Keeps}
use laap.Base.Rows.{All-update, find_where}
use laap.Db.{
  Moment, insert_assignment, insert_user, update_assignments, update_sessions, update_users,
}
use laap.Db.Queries.{active_device_of}
use laap.Db.Writes.{write_assignments_after, write_sessions_after, write_users_after}
use laap.Exec.Keeps.{Keeps}
use laap.Leases.{close_session, closed, is_open}
use laap.Leases.Frame.{Frame}
use laap.Schema.{Account, Assignment, Db, Device, Payload, Session, User}
use laap.Types.{ReleaseReason, SessionStatus, is_live}

abbrev pub is_backed : List Account → List Device → Session → Bool
is_backed accounts devices s =
    not (is_live s.status)
    || (is_open (find_where (λ a. a.id == s.account_id) accounts)
        && is_some (find_where (active_device_of s.device_id s.user_id) devices))

pub record AllBacked (db : Db) : Type 0 where
  pub rows : All (λ s. is_backed db.accounts db.devices s ≡ true) db.sessions

-- What keeps the accounts open and the devices in force keeps the sessions backed.
pub is_backed_mono :
    (accounts accounts' : List Account) (devices devices' : List Device) (s : Session)
    → (is_open (find_where (λ a. a.id == s.account_id) accounts) ≡ true
        → is_open (find_where (λ a. a.id == s.account_id) accounts') ≡ true)
    → (is_some (find_where (active_device_of s.device_id s.user_id) devices) ≡ true
        → is_some (find_where (active_device_of s.device_id s.user_id) devices') ≡ true)
    → is_backed accounts devices s ≡ true
    → is_backed accounts' devices' s ≡ true
is_backed_mono accounts accounts' devices devices' s a d h = ground arith

pub update_sessions-AllBacked :
    (p : Session → Bool) (f : Session → Session)
    → ((accounts : List Account) (devices : List Device) (s : Session)
        → p s ≡ true
        → is_backed accounts devices s ≡ true
        → is_backed accounts devices (f s) ≡ true)
    → Keeps AllBacked (update_sessions p f)
unfolding update_sessions
update_sessions-AllBacked p f step = record {
  at = λ db h.
      write_sessions_after AllBacked db h _
        (record { rows = All-update _ p f (step db.accounts db.devices) db.sessions h.rows });
}

pub close_session-AllBacked :
    (now : ℕ) (status : SessionStatus) (reason : ReleaseReason) (id : String)
    → is_live status ≡ false
    → Keeps AllBacked (close_session now status reason id)
unfolding close_session
close_session-AllBacked now status reason id over =
    update_sessions-AllBacked (λ s. s.id == id) (closed now status reason)
      (λ accounts devices s _ _. rw over)

pub add_audit-AllBacked :
    (m : Moment) (actor_id action entity_type entity_id : String) (payload : Payload)
    → Keeps AllBacked (add_audit m actor_id action entity_type entity_id payload)
add_audit-AllBacked = add_audit-Keeps AllBacked λ db rows h. record { rows = h.rows }

pub AllBacked-frame : Frame AllBacked
AllBacked-frame = record { audit = add_audit-AllBacked; close = close_session-AllBacked }

pub update_users-AllBacked :
    (p : User → Bool) (f : User → User) → Keeps AllBacked (update_users p f)
unfolding update_users
update_users-AllBacked p f = record {
  at = λ db h. write_users_after AllBacked db h _ (record { rows = h.rows });
}

pub insert_user-AllBacked : (row : User) → Keeps AllBacked (insert_user row)
unfolding insert_user
insert_user-AllBacked row = record {
  at = λ db h. write_users_after AllBacked db h _ (record { rows = h.rows });
}

pub update_assignments-AllBacked :
    (p : Assignment → Bool) (f : Assignment → Assignment) → Keeps AllBacked (update_assignments p f)
unfolding update_assignments
update_assignments-AllBacked p f = record {
  at = λ db h. write_assignments_after AllBacked db h _ (record { rows = h.rows });
}

pub insert_assignment-AllBacked : (row : Assignment) → Keeps AllBacked (insert_assignment row)
unfolding insert_assignment
insert_assignment-AllBacked row = record {
  at = λ db h. write_assignments_after AllBacked db h _ (record { rows = h.rows });
}

-- A change of accounts that closes none of them.
pub accounts-AllBacked :
    (db : Db) (accounts : List Account)
    → ((id : String)
        → is_open (find_where (λ a. a.id == id) db.accounts) ≡ true
        → is_open (find_where (λ a. a.id == id) accounts) ≡ true)
    → AllBacked db
    → AllBacked (record db { accounts = accounts })
accounts-AllBacked db accounts keep h = record {
  rows =
      All-weaken
        (λ s.
          is_backed_mono db.accounts accounts db.devices db.devices s (keep s.account_id) (λ d. d))
        db.sessions h.rows;
}

-- A change of devices that revokes none of them.
pub devices-AllBacked :
    (db : Db) (devices : List Device)
    → ((id user_id : String)
        → is_some (find_where (active_device_of id user_id) db.devices) ≡ true
        → is_some (find_where (active_device_of id user_id) devices) ≡ true)
    → AllBacked db
    → AllBacked (record db { devices = devices })
devices-AllBacked db devices keep h = record {
  rows =
      All-weaken
        (λ s.
          is_backed_mono db.accounts db.accounts db.devices devices s (λ a. a)
            (keep s.device_id s.user_id))
        db.sessions h.rows;
}
