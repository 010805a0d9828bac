-- ===== src/Views.antt =====
-- The queries of the dashboard: `getMetrics`, `listSessions`, `listAssignments`
-- (apps/api/src/services/sqlite/admin.service.ts), `listAccounts` (account.service.ts), `listDevices`
-- (device.service.ts) and `listUsers` (auth.service.ts), as the rows that they select, before the
-- texts of the user interface are made of them.
pub mod Scope
pub mod Audit
pub mod Pages
pub mod Newest
pub mod Activity
mod Tests
use mathlib.Core.Option
use laap.Base.{
  Bool, List, Option, String, [], get_or, if◌then◌else◌, is_some, leb, ltb, map, nat_eq, none, not,
  some, suc, true, zero, ℕ, ◌&&◌, ◌-◌, ◌==◌, ◌||◌, ◌∷◌,
}
use laap.Base.Rows.{count_where, exists_where, select_where}
use laap.Db.Queries.{account_by_id, device_by_id, live_on_account, live_session_of, user_by_id}
use laap.Leases.{active_assignment_of, is_expired, is_text}
use laap.Leases.Release.{assignment_in_force}
use laap.Schema.{Account, Assignment, AuditLog, Db, Device, Session, User}
use laap.Types.{
  AccountStatus, ApiUser, AssignmentStatus, is_active_assignment, is_active_device, is_active_user,
  is_available, is_live,
}
use laap.Users.{public_user}

-- ORDER BY: `before a b` when `a` may stand before `b`
insert_by : {A : Type 0} → (A → A → Bool) → A → List A → List A
insert_by before a [] = a ∷ []
insert_by before a (x ∷ xs) =
    let rest = insert_by before a xs in if before a x then a ∷ x ∷ xs else x ∷ rest

pub order_by : {A : Type 0} → (A → A → Bool) → List A → List A
order_by before [] = []
order_by before (x ∷ xs) = insert_by before x (order_by before xs)

cons_some : {A : Type 0} → Option A → List A → List A
cons_some none rest = rest
cons_some (some a) rest = a ∷ rest

-- JOIN by keys: the rows that have a partner
pub join : {A B : Type 0} → (A → Option B) → List A → List B
join f [] = []
join f (x ∷ xs) = cons_some (f x) (join f xs)

-- `userId ? … AND user_id = ? … : …`
abbrev pub is_owner : Option String → String → Bool
is_owner none user_id = true
is_owner (some id) user_id = user_id == id

pub record Metrics : Type 0 where
  pub available_accounts : ℕ
  pub total_accounts : ℕ
  pub active_leases : ℕ
  pub bound_devices : ℕ
  pub healthy_devices : ℕ
  pub authorized_users : ℕ
  pub active_users : ℕ

-- EXISTS (… account_assignments … status = 'active'), for a scoped user
abbrev pub is_assigned : Option String → Db → Account → Bool
is_assigned none db a = true
is_assigned (some id) db a = exists_where (active_assignment_of a.id id) db.assignments

abbrev pub is_free_account : Option String → Db → Account → Bool
is_free_account scope db a =
    is_assigned scope db a
    && (is_available a.status && not (exists_where (live_on_account a.id) db.sessions))

abbrev pub is_bound : Option String → Device → Bool
is_bound scope d = is_active_device d.status && is_owner scope d.user_id

abbrev pub is_healthy : ℕ → Option String → Device → Bool
is_healthy now scope d = is_bound scope d && ltb (now - 300000) d.last_seen_at

abbrev user_count : Option String → Db → ℕ
user_count none db = count_where (λ u. is_active_user u.status) db.users
user_count (some id) db = 1

pub get_metrics : ℕ → Option String → Db → Metrics
get_metrics now scope db = record {
  available_accounts = count_where (is_free_account scope db) db.accounts;
  total_accounts = count_where (is_assigned scope db) db.accounts;
  active_leases = count_where (λ s. is_live s.status && is_owner scope s.user_id) db.sessions;
  bound_devices = count_where (is_bound scope) db.devices;
  healthy_devices = count_where (is_healthy now scope) db.devices;
  authorized_users = user_count scope db;
  active_users = user_count scope db;
}

-- a live session with its account, user and device
pub record SessionView : Type 0 where
  pub session : Session
  pub account : Account
  pub user : User
  pub device : Device

abbrev joined : Session → Option Account → Option User → Option Device → Option SessionView
joined s (some a) (some u) (some d) =
    some (record { session = s; account = a; user = u; device = d })
joined s _ _ _ = none

abbrev pub session_view : Db → Session → Option SessionView
session_view db s =
    joined s (account_by_id s.account_id db) (user_by_id s.user_id db) (device_by_id s.device_id db)

abbrev pub is_listed : Option String → Session → Bool
is_listed scope s = is_live s.status && is_owner scope s.user_id

pub list_sessions : Option String → Db → List SessionView
list_sessions scope db =
    order_by (λ a b. leb b.session.started_at a.session.started_at)
      (join (session_view db) (select_where (is_listed scope) db.sessions))

-- `DashboardAccount['status']`
pub data ShownStatus : Type 0 where
  shows_available shows_leased shows_maintenance shows_disabled : ShownStatus

abbrev pub shown_status : AccountStatus → Bool → ShownStatus
shown_status AccountStatus.maintenance is_leased = shows_maintenance
shown_status AccountStatus.disabled is_leased = shows_disabled
shown_status AccountStatus.available is_leased = if is_leased then shows_leased else shows_available

pub record AccountView : Type 0 where
  pub account : Account
  pub status : ShownStatus
  pub has_session_blob : Bool
  pub holder_name : Option String
  pub holder_device : Option String
  pub session_started : Option ℕ
  pub last_used : ℕ

abbrev user_name : Db → Option Session → Option String
user_name db none = none
user_name db (some s) = Option.map (λ (u : User). u.display_name) (user_by_id s.user_id db)

abbrev device_name : Db → Option Session → Option String
device_name db none = none
device_name db (some s) = Option.map (λ (d : Device). d.device_name) (device_by_id s.device_id db)

abbrev started : Option Session → Option ℕ
started none = none
started (some s) = some s.started_at

pub account_view : Db → Account → AccountView
account_view db a =
    let lease = live_session_of a.id db in
    record {
      account = a;
      status = shown_status a.status (is_some lease);
      has_session_blob = is_text a.session_blob;
      holder_name = user_name db lease;
      holder_device = device_name db lease;
      session_started = started lease;
      last_used = get_or (started lease) a.updated_at;
    }

-- JOIN account_assignments mine ON …, for a scoped user
abbrev pub is_visible : ℕ → Option String → Db → Account → Bool
is_visible now none db a = true
is_visible now (some id) db a = is_some (assignment_in_force now a.id id db)

-- the leased accounts first, then the last used, then by name in SQLite's collation
abbrev comes_first : (String → String → Bool) → AccountView → AccountView → Bool
comes_first collates v w =
    if is_some v.session_started
    then not (is_some w.session_started) || later
    else not (is_some w.session_started) && later
  where
    later : Bool
    later =
        ltb w.last_used v.last_used
        || nat_eq v.last_used w.last_used && collates v.account.display_name w.account.display_name

pub list_accounts : (String → String → Bool) → ℕ → Option String → Db → List AccountView
list_accounts collates now scope db =
    order_by (comes_first collates)
      (map (account_view db) (select_where (is_visible now scope db) db.accounts))

-- a device with its user's name
abbrev device_view : Db → Device → Option (Device × String)
device_view db d = Option.map (λ (u : User). (d, u.display_name)) (user_by_id d.user_id db)

pub list_devices : Option String → Db → List (Device × String)
list_devices scope db =
    order_by (λ a b. leb b.0.last_seen_at a.0.last_seen_at)
      (join (device_view db) (select_where (λ d. is_owner scope d.user_id) db.devices))

pub list_users : (String → String → Bool) → Db → List ApiUser
list_users collates db =
    map public_user (order_by (λ a b. collates a.display_name b.display_name) db.users)

pub record AssignmentView : Type 0 where
  pub assignment : Assignment
  pub account : Account
  pub user : User
  pub status : AssignmentStatus

-- 'expired' for an active assignment whose time has passed
abbrev pub shown_assignment : ℕ → Assignment → AssignmentStatus
shown_assignment now a =
    if is_active_assignment a.status && is_expired now a.expires_at
    then AssignmentStatus.expired
    else a.status

abbrev assigned : ℕ → Assignment → Option Account → Option User → Option AssignmentView
assigned now a (some account) (some user) =
    some
      (record { assignment = a; account = account; user = user; status = shown_assignment now a })
assigned now a _ _ = none

pub list_assignments : ℕ → Db → List AssignmentView
list_assignments now db =
    order_by (λ a b. leb b.assignment.assigned_at a.assignment.assigned_at)
      (join (λ a. assigned now a (account_by_id a.account_id db) (user_by_id a.user_id db))
        db.assignments)

-- LIMIT and OFFSET
pub take_rows : {A : Type 0} → ℕ → List A → List A
take_rows zero xs = []
take_rows (suc n) [] = []
take_rows (suc n) (x ∷ xs) = x ∷ take_rows n xs

pub drop_rows : {A : Type 0} → ℕ → List A → List A
drop_rows zero xs = xs
drop_rows (suc n) [] = []
drop_rows (suc n) (x ∷ xs) = drop_rows n xs

-- an entry of the log with the name of its actor
abbrev audit_view : Db → AuditLog → AuditLog × String
audit_view db l =
    (l, get_or (Option.map (λ (u : User). u.display_name) (user_by_id l.actor_id db)) "System")

-- the log, the latest entries first
pub audit_rows : Db → List (AuditLog × String)
audit_rows db = map (audit_view db) (order_by (λ a b. leb b.created_at a.created_at) db.audit_logs)

pub list_audit : ℕ → ℕ → Db → List (AuditLog × String)
list_audit limit offset db = take_rows limit (drop_rows offset (audit_rows db))
