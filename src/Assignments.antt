-- ===== src/Assignments.antt =====
-- The assignments of SqliteAdminService (apps/api/src/services/sqlite/admin.service.ts): which
-- operator may lease which account.
pub mod Backed
pub mod Revoked
pub mod Statements
mod Tests
use laap.Base.{Bool, Option, String, [], none, not, some, true, ℕ, ◌&&◌, ◌==◌, ◌∷◌}
use laap.Audit.{add_audit}
use laap.Base.Rows.{find_where}
use laap.Db.{Moment, insert_assignment, update_assignments}
use laap.Db.Queries.{account_by_id, assignment_of}
use laap.Exec.{
  Failure, M, ensure, gets, or_throw, pure, service, service_error, transaction, ◌>>=◌, ◌>>◌,
}
use laap.Leases.{close_session}
use laap.Schema.{Expiry, Assignment, Db, Session, User, bool, str}
use laap.Types.{
  AssignmentStatus, ReleaseReason, SessionStatus, is_active_user, is_admin, is_available, is_live,
}

abbrev pub invalid_assignment : Failure
invalid_assignment = service (record {
  code = "INVALID_ASSIGNMENT";
  status = 400;
  message = "Only operators can receive account assignments";
})

-- SELECT … FROM users WHERE id = ? AND status = 'active'
abbrev pub active_user : String → Db → Option User
active_user user_id db = find_where (λ u. u.id == user_id && is_active_user u.status) db.users

abbrev pub new_assignment : Moment → String → String → Option Expiry → Assignment
new_assignment m account_id user_id expires_at = record {
  id = m.uuid;
  account_id = account_id;
  user_id = user_id;
  status = AssignmentStatus.active;
  assigned_at = m.now;
  expires_at = expires_at;
  created_at = m.now;
}

abbrev pub renewed : ℕ → Option Expiry → Assignment → Assignment
renewed now expires_at a = record a {
  status = AssignmentStatus.active;
  expires_at = expires_at;
  assigned_at = now;
}

-- the upsert, with the id that it returns
write_assignment : Moment → String → String → Option Expiry → Option Assignment → M String
write_assignment m account_id user_id expires_at none = do
  insert_assignment (new_assignment m account_id user_id expires_at)
  pure m.uuid
write_assignment m account_id user_id expires_at (some existing) = do
  update_assignments (λ a. a.id == existing.id) (renewed m.now expires_at)
  pure existing.id

pub add_assignment : Moment → String → String → String → Option Expiry → M String
add_assignment m actor_id account_id user_id expires_at = transaction (do
  found ← gets (account_by_id account_id)
  account ← or_throw found (service_error "ACCOUNT_NOT_FOUND" 404)
  ensure (is_available account.status) (service_error "ACCOUNT_UNAVAILABLE" 409)
  target ← gets (active_user user_id)
  user ← or_throw target (service_error "USER_NOT_FOUND" 404)
  ensure (not (is_admin user.role)) invalid_assignment
  existing ← gets (assignment_of account_id user_id)
  id ← write_assignment m account_id user_id expires_at existing
  add_audit m actor_id "ASSIGNMENT_UPDATED" "account_assignments" id
      (("accountId", str account_id) ∷ ("userId", str user_id) ∷ [])
  pure id)

-- … WHERE account_id = ? AND user_id = ? AND status IN ('starting', 'active', 'stopping')
abbrev pub lease_of : String → String → Session → Bool
lease_of account_id user_id s =
    s.account_id == account_id && (s.user_id == user_id && is_live s.status)

end_unassigned : Moment → String → Option Session → M (Unit {0})
end_unassigned m actor_id none = pure tt
end_unassigned m actor_id (some s) = do
  close_session m.now SessionStatus.ended ReleaseReason.admin_force_release s.id
  add_audit m actor_id "SESSION_ENDED" "account_sessions" s.id
      (("releaseReason", str "admin_force_release") ∷ ("assignmentRevoked", bool true) ∷ [])

pub revoke_assignment : Moment → String → String → String → M (Unit {0})
revoke_assignment m actor_id account_id user_id = transaction (do
  found ← gets (assignment_of account_id user_id)
  assignment ← or_throw found (service_error "ASSIGNMENT_NOT_FOUND" 404)
  update_assignments (λ a. a.id == assignment.id)
      (λ a. record a { status = AssignmentStatus.revoked })
  add_audit m actor_id "ASSIGNMENT_REVOKED" "account_assignments" assignment.id
      (("accountId", str account_id) ∷ ("userId", str user_id) ∷ [])
  held ← gets (λ db. find_where (lease_of account_id user_id) db.sessions)
  end_unassigned m actor_id held)
