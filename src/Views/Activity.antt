-- ===== src/Views/Activity.antt =====
-- The recent activity of the dashboard: `listActivity` of apps/api/src/services/sqlite/admin.service.ts.
-- `relativeTime` and `toLowerCase` are parameters.
use Prim.Native.Char.{code}
use Prim.Native.String.{◌++◌}
use laap.Base.{
  Bool, List, Option, String, [], if◌then◌else◌, leb, map, nat_eq, none, some, true, ℕ, ◌==◌, ◌∷◌,
}
use laap.Base.Rows.{select_where}
use laap.Schema.{AuditLog, Db, Json, str}
use laap.Views.{audit_view, order_by, take_rows}

pub data Tone : Type 0 where
  success neutral info warning : Tone

-- `DashboardActivity`
pub record Activity : Type 0 where
  pub id : String
  pub title : String
  pub detail : String
  pub time : String
  pub tone : Tone

pub record Texts : Type 0 where
  pub relative_time : ℕ → String
  pub to_lower : String → String

-- `replaceAll('_', ' ')`
abbrev spaced : String → String
spaced String.[] = ""
spaced (String.◌∷◌ c t) = String.◌∷◌ (if nat_eq (code c) 95 then " " else c) (spaced t)

-- `actionMap`, and the title of any other action
abbrev mapped : Texts → String → String × Tone
mapped x action =
    if action == "SESSION_STARTED"
    then ("Lease acquired", Tone.success)
    else if action == "SESSION_ENDED"
    then ("Lease released", Tone.neutral)
    else if action == "DEVICE_REGISTERED"
    then ("Device registered", Tone.info)
    else if action == "ASSIGNMENT_UPDATED"
    then ("Assignment updated", Tone.neutral)
    else if action == "ASSIGNMENT_REVOKED"
    then ("Assignment revoked", Tone.warning)
    else if action == "SESSION_LAZILY_REAPED"
    then ("Stale session reaped", Tone.warning)
    else (x.to_lower (spaced action), Tone.neutral)

-- `payload.account`
abbrev account_in : List (String × Json) → Option String
account_in [] = none
account_in ((key, str t) ∷ fields) =
    let rest = account_in fields in if key == "account" then some t else rest
account_in (_ ∷ fields) = account_in fields

abbrev detail_with : Texts → String → String → Option String → String
detail_with x action actor none = actor ++ " · " ++ spaced (x.to_lower action)
detail_with x action actor (some account) =
    if account == ""
    then actor ++ " · " ++ spaced (x.to_lower action)
    else account ++ " · " ++ actor

abbrev pub activity : Texts → String → AuditLog × String → Activity
activity x time (l, actor) =
    let (title, tone) = mapped x l.action in
    record {
      id = l.id;
      title = title;
      detail = detail_with x l.action actor (account_in l.payload);
      time = time;
      tone = tone;
    }

-- the entries of the user, or of all users
abbrev pub is_of : Option String → AuditLog → Bool
is_of none l = true
is_of (some user_id) l = l.actor_id == user_id

-- the latest six of them, each with the name of its actor
unfoldable pub activity_rows : Option String → Db → List (AuditLog × String)
activity_rows scope db = take_rows 6 (
    map (audit_view db)
      (order_by (λ a b. leb b.created_at a.created_at) (select_where (is_of scope) db.audit_logs)))

-- the first is always 'Just now'
abbrev timed : Texts → List (AuditLog × String) → List Activity
timed x [] = []
timed x (row ∷ rows) =
    activity x "Just now" row ∷ map (λ r. activity x (x.relative_time r.0.created_at) r) rows

-- `listActivity`
unfoldable pub list_activity : Texts → Option String → Db → List Activity
list_activity x scope db = timed x (activity_rows scope db)
