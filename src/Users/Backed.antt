-- ===== src/Users/Backed.antt =====
-- The users' service takes no account and no device from the holder of a lease: it ends leases.
use laap.Base.{String}
use laap.Db.{Moment}
use laap.Exec.Keeps.{Keeps, keeps_rules}
use laap.Leases.Backed.{
  AllBacked, AllBacked-frame, add_audit-AllBacked, insert_user-AllBacked, update_users-AllBacked,
}
use laap.Leases.Frame.{ended}
use laap.Schema.{Session}
use laap.Users.{
  Texts, UserInput, UserPatch, commit_new_user, commit_reset, create_user, end_deactivated,
  end_sessions, update_user, write_user,
}
use laap.Users.Statements.{check_new_user-Keeps, guard_last_admin-Keeps}

pub commit_new_user-AllBacked :
    (t : Texts) (m : Moment) (actor_id : String) (input : UserInput)
    → Keeps AllBacked (commit_new_user t m actor_id input)
unfolding commit_new_user
commit_new_user-AllBacked t m actor_id input =
    search (keeps_rules, add_audit-AllBacked, insert_user-AllBacked)

pub create_user-AllBacked :
    (t : Texts) (m : Moment) (actor_id : String) (input : UserInput)
    → Keeps AllBacked (create_user t m actor_id input)
unfolding create_user
create_user-AllBacked t m actor_id input =
    search (keeps_rules, check_new_user-Keeps, commit_new_user-AllBacked)

end_deactivated-AllBacked :
    (m : Moment) (actor_id : String) (s : Session) → Keeps AllBacked (end_deactivated m actor_id s)
unfolding end_deactivated
end_deactivated-AllBacked m actor_id s =
    search (keeps_rules, add_audit-AllBacked, ended AllBacked-frame)

end_sessions-AllBacked :
    (m : Moment) (actor_id user_id : String) → Keeps AllBacked (end_sessions m actor_id user_id)
unfolding end_sessions
end_sessions-AllBacked m actor_id user_id = search (keeps_rules, end_deactivated-AllBacked)

write_user-AllBacked :
    (m : Moment) (user_id : String) (input : UserPatch)
    → Keeps AllBacked (write_user m user_id input)
unfolding write_user
write_user-AllBacked m user_id input = search (keeps_rules, update_users-AllBacked)

pub update_user-AllBacked :
    (m : Moment) (actor_id user_id : String) (input : UserPatch)
    → Keeps AllBacked (update_user m actor_id user_id input)
unfolding update_user
update_user-AllBacked m actor_id user_id input =
    search
      (
        keeps_rules, add_audit-AllBacked, write_user-AllBacked, guard_last_admin-Keeps,
        end_sessions-AllBacked,
      )
      depth 20

pub commit_reset-AllBacked :
    (t : Texts) (m : Moment) (actor_id user_id password : String)
    → Keeps AllBacked (commit_reset t m actor_id user_id password)
unfolding commit_reset
commit_reset-AllBacked t m actor_id user_id password =
    search (keeps_rules, add_audit-AllBacked, update_users-AllBacked)
