-- ===== src/Assignments/Statements.antt =====
-- What an invariant of every statement gives for this service.
use laap.Base.{Option, String, none, some}
use laap.Assignments.{Expiry, add_assignment, end_unassigned, revoke_assignment, write_assignment}
use laap.Db.{Moment}
use laap.Exec.Keeps.{Keeps, keeps_rules}
use laap.Leases.Frame.{ended}
use laap.Schema.{Assignment, Db, Session}
use laap.Statements.{Statements, statements-Frame}

module _ {P : Db → Type 0} (st : Statements P) where
  write_assignment-Keeps :
      (m : Moment) (account_id user_id : String) (expires_at : Option Expiry)
      (existing : Option Assignment)
      → Keeps P (write_assignment m account_id user_id expires_at existing)
  unfolding write_assignment
  write_assignment-Keeps m account_id user_id expires_at none = search (keeps_rules, st.assignment)
  write_assignment-Keeps m account_id user_id expires_at (some existing) =
      search (keeps_rules, st.assignments)

  pub add_assignment-Keeps :
      (m : Moment) (actor_id account_id user_id : String) (expires_at : Option Expiry)
      → Keeps P (add_assignment m actor_id account_id user_id expires_at)
  unfolding add_assignment
  add_assignment-Keeps m actor_id account_id user_id expires_at =
      search (keeps_rules, st.audit, write_assignment-Keeps) depth 24

  end_unassigned-Keeps :
      (m : Moment) (actor_id : String) (held : Option Session)
      → Keeps P (end_unassigned m actor_id held)
  unfolding end_unassigned
  end_unassigned-Keeps m actor_id none = search keeps_rules
  end_unassigned-Keeps m actor_id (some s) =
      search (keeps_rules, st.audit, ended (statements-Frame st))

  pub revoke_assignment-Keeps :
      (m : Moment) (actor_id account_id user_id : String)
      → Keeps P (revoke_assignment m actor_id account_id user_id)
  unfolding revoke_assignment
  revoke_assignment-Keeps m actor_id account_id user_id =
      search (keeps_rules, st.audit, st.assignments, end_unassigned-Keeps) depth 16
