-- ===== src/Db/Queries.antt =====
-- The SELECT statements by key that the services share; `get` takes the first row.
use laap.Base.{Bool, false, ◌&&◌, String, Option, none, some, ◌==◌}
use laap.Base.Rows.{find_where}
use laap.Types.{is_live, is_admin, is_active_device}
use laap.Schema.{User, Account, Assignment, Device, Session, Db}

-- … FROM users WHERE id = ?
abbrev pub user_by_id : String → Db → Option User
user_by_id id db = find_where (λ u. u.id == id) db.users

-- … FROM accounts WHERE id = ?
abbrev pub account_by_id : String → Db → Option Account
account_by_id id db = find_where (λ a. a.id == id) db.accounts

-- … FROM user_devices WHERE id = ?
abbrev pub device_by_id : String → Db → Option Device
device_by_id id db = find_where (λ d. d.id == id) db.devices

-- … FROM account_sessions WHERE id = ?
abbrev pub session_by_id : String → Db → Option Session
session_by_id id db = find_where (λ s. s.id == id) db.sessions

abbrev pub live_on_account : String → Session → Bool
live_on_account account_id s = s.account_id == account_id && is_live s.status

-- … WHERE account_id = ? AND status IN ('starting', 'active', 'stopping')
abbrev pub live_session_of : String → Db → Option Session
live_session_of account_id db = find_where (live_on_account account_id) db.sessions

-- … FROM account_assignments WHERE account_id = ? AND user_id = ?
abbrev pub assignment_of : String → String → Db → Option Assignment
assignment_of account_id user_id db =
    find_where (λ a. a.account_id == account_id && a.user_id == user_id) db.assignments

abbrev pub active_device_of : String → String → Device → Bool
active_device_of device_id user_id d =
    d.id == device_id && (d.user_id == user_id && is_active_device d.status)

-- … FROM user_devices WHERE id = ? AND user_id = ? AND status = 'active'
abbrev pub authorized_device : String → String → Db → Option Device
authorized_device device_id user_id db = find_where (active_device_of device_id user_id) db.devices

-- `user?.role === 'admin'`
abbrev pub has_admin_role : Option User → Bool
has_admin_role none = false
has_admin_role (some u) = is_admin u.role
