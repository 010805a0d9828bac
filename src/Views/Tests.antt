-- ===== src/Views/Tests.antt =====
-- The dashboard of the sample database.
use laap.Base.{
  All, Bool, String, length, refl, some, true, [], ℕ, ◌++◌, ◌+◌, ◌==◌, ◌∷◌, ◌≡◌, ◌≤◌, map, ltb,
}
use laap.Base.Rows.{count_where, exists_where, find_where, select_where}
use laap.Samples.{leased}
use laap.Schema.{AuditLog, Db}
use laap.Types.{is_live}
use laap.Views.Activity.{Activity, Texts, activity_rows, list_activity}
use laap.Views.{
  account_view, cons_some, get_metrics, insert_by, join, list_accounts, list_audit, audit_rows,
  take_rows, drop_rows, list_sessions, order_by,
}
use mathlib.Core.List.{Perm}
use laap.Views.Audit.{audit_page}
use laap.Views.Newest.{IsNewestFirst, audit_page-pages}
use laap.Views.Scope.{Assigned, get_metrics-bounds, list_accounts-scoped, list_sessions-scoped}

abbrev by_name : String → String → Bool
by_name a b = true

get_metrics-bounds_example :
    ((get_metrics 2000000 (some "u1") leased).available_accounts
      ≤ (get_metrics 2000000 (some "u1") leased).total_accounts)
    × ((get_metrics 2000000 (some "u1") leased).healthy_devices
        ≤ (get_metrics 2000000 (some "u1") leased).bound_devices)
get_metrics-bounds_example = get_metrics-bounds 2000000 (some "u1") leased

list_accounts-scoped_example :
    All
      (λ v. Assigned 2000000 "u1" leased v.account.id)
      (list_accounts by_name 2000000 (some "u1") leased)
list_accounts-scoped_example = list_accounts-scoped by_name 2000000 "u1" leased

list_sessions-scoped_example :
    All
      (λ v. (is_live v.session.status ≡ true) × ((v.session.user_id == "u1") ≡ true))
      (list_sessions (some "u1") leased)
list_sessions-scoped_example = list_sessions-scoped "u1" leased

-- one session is listed
lists_one : length (list_sessions (some "u1") leased) ≡ 1
unfolding list_sessions order_by insert_by join cons_some select_where find_where
lists_one = refl

-- after the assignment has run out the metrics still count the account, and the list does not
counts_expired : (get_metrics 90001000 (some "u1") leased).total_accounts ≡ 1
unfolding get_metrics count_where exists_where
counts_expired = refl

-- half a second after its end, whose text has no milliseconds, the assignment still lists the account
lists_expired : length (list_accounts by_name 90000500 (some "u1") leased) ≡ 1
unfolding list_accounts account_view order_by insert_by select_where find_where
lists_expired = refl

lists_none : length (list_accounts by_name 90001000 (some "u1") leased) ≡ 0
unfolding list_accounts order_by select_where find_where
lists_none = refl

abbrev entry : String → String → ℕ → AuditLog
entry id actor_id time = record {
  id = id;
  actor_id = actor_id;
  action = "account.lease_acquired";
  entity_type = "account_session";
  entity_id = "s1";
  payload = [];
  created_at = time;
}

-- a log of three entries, one of them by no user
abbrev three_entries : Db
three_entries = record leased {
  audit_logs = entry "l1" "u1" 10 ∷ entry "l2" "system" 30 ∷ entry "l3" "u1" 20 ∷ [];
}

audit_page-pages_example :
    ((audit_page 1 0 three_entries).audit ++ (audit_page 2 (0 + 1) three_entries).audit
      ≡ (audit_page (1 + 2) 0 three_entries).audit)
    × ((audit_page 1 0 three_entries).has_more ≡ ltb (0 + 1) (length three_entries.audit_logs))
    × IsNewestFirst (audit_page 1 0 three_entries).audit
    × Perm
        (map (λ r. r.0) (audit_page (length three_entries.audit_logs) 0 three_entries).audit)
        three_entries.audit_logs
audit_page-pages_example = audit_page-pages 1 2 0 three_entries

-- the second page of one entry is the entry in the middle of time, under the name of its actor
middle : list_audit 1 1 three_entries ≡ (entry "l3" "u1" 20, "Maya") ∷ []
unfolding list_audit audit_rows order_by insert_by take_rows drop_rows find_where
middle = refl

-- what the operator is told, the latest entry first
abbrev plain_texts : Texts
plain_texts = record { relative_time = λ t. "earlier"; to_lower = λ t. t }

abbrev told : Activity → String × String × String
told a = (a.id, a.time, a.title)

recent :
    map told (list_activity plain_texts (some "u1") three_entries)
    ≡ ("l3", "Just now", "account.lease acquired")
      ∷ ("l1", "earlier", "account.lease acquired")
      ∷ []
unfolding list_activity activity_rows order_by insert_by take_rows select_where find_where
recent = refl
