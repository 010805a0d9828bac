-- ===== src/Assignments/Backed.antt =====
-- Granting and revoking an assignment keeps the live sessions backed.
use laap.Base.{Option, String, none, some}
use laap.Assignments.{Expiry, add_assignment, end_unassigned, revoke_assignment, write_assignment}
use laap.Db.{Moment}
use laap.Exec.Keeps.{Keeps, keeps_rules}
use laap.Leases.Backed.{
  AllBacked, AllBacked-frame, add_audit-AllBacked, insert_assignment-AllBacked,
  update_assignments-AllBacked,
}
use laap.Leases.Frame.{ended}
use laap.Schema.{Assignment, Session}

write_assignment-AllBacked :
    (m : Moment) (account_id user_id : String) (expires_at : Option Expiry)
    (existing : Option Assignment)
    → Keeps AllBacked (write_assignment m account_id user_id expires_at existing)
unfolding write_assignment
write_assignment-AllBacked m account_id user_id expires_at none =
    search (keeps_rules, insert_assignment-AllBacked)
write_assignment-AllBacked m account_id user_id expires_at (some existing) =
    search (keeps_rules, update_assignments-AllBacked)

pub add_assignment-AllBacked :
    (m : Moment) (actor_id account_id user_id : String) (expires_at : Option Expiry)
    → Keeps AllBacked (add_assignment m actor_id account_id user_id expires_at)
unfolding add_assignment
add_assignment-AllBacked m actor_id account_id user_id expires_at =
    search (keeps_rules, add_audit-AllBacked, write_assignment-AllBacked) depth 24

end_unassigned-AllBacked :
    (m : Moment) (actor_id : String) (held : Option Session)
    → Keeps AllBacked (end_unassigned m actor_id held)
unfolding end_unassigned
end_unassigned-AllBacked m actor_id none = search keeps_rules
end_unassigned-AllBacked m actor_id (some s) =
    search (keeps_rules, add_audit-AllBacked, ended AllBacked-frame)

pub revoke_assignment-AllBacked :
    (m : Moment) (actor_id account_id user_id : String)
    → Keeps AllBacked (revoke_assignment m actor_id account_id user_id)
unfolding revoke_assignment
revoke_assignment-AllBacked m actor_id account_id user_id =
    search
      (keeps_rules, add_audit-AllBacked, update_assignments-AllBacked, end_unassigned-AllBacked)
      depth 16
