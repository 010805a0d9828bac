-- ===== src/Users/Deactivated.antt =====
-- A user who is deactivated keeps no lease.
use laap.Base.{
  All, All-tabulate, All-weaken, Bool, List, Option, String, [], arith, false, not, not-true, refl,
  true, ◌∷◌, ◌≡◌,
}
use laap.Audit.{add_audit-Keeps}
use laap.Base.Rows.{select_where}
use laap.Db.{Moment}
use laap.Db.Queries.{user_by_id}
use laap.Exec.{gets, ok, when}
use laap.Exec.Yields.{
  Yields, Yields-bind, Yields-ensure, Yields-for_each, Yields-gets, Yields-of_Keeps, Yields-ok,
  Yields-or_throw, Yields-skip, Yields-transaction, Yields-weaken,
}
use laap.Leases.Closing.{Closable, Pending, Pending-done, Pending-start, end_row-Pending}
use laap.Schema.{Db, Session}
use laap.Types.{ApiUser, ReleaseReason, SessionStatus}
use laap.Users.{UserPatch, deactivates, end_deactivated, end_sessions, live_of_user, update_user}

abbrev is_out : String → Db → Session → Bool
is_out user_id db s = not (live_of_user user_id s)

out_Closable : (user_id : String) → Closable (is_out user_id)
out_Closable user_id = record {
  stable = λ db rows logs s. refl;
  over = λ db now status reason s over. ground (arith, over);
}

-- no session of the user is live
abbrev pub HasNoLease : String → Db → Type 0
HasNoLease user_id db = All (λ s. live_of_user user_id s ≡ false) db.sessions

end_deactivated-Pending :
    (m : Moment) (actor_id user_id : String) (x : Session) (rest : List Session) (db : Db)
    → Pending (is_out user_id) (x ∷ rest) db
    → Yields (λ _. Pending (is_out user_id) rest) (end_deactivated m actor_id x db)
unfolding end_deactivated
end_deactivated-Pending m actor_id user_id x rest db h =
    end_row-Pending (is_out user_id) (out_Closable user_id) m x SessionStatus.ended
      ReleaseReason.error actor_id _ _ _ _ rest db refl h

end_sessions-ends :
    (m : Moment) (actor_id user_id : String) (db : Db)
    → Yields (λ _. HasNoLease user_id) (end_sessions m actor_id user_id db)
unfolding end_sessions
end_sessions-ends m actor_id user_id db =
    let Q : Unit {0} → Db → Type 0 = λ _. HasNoLease user_id in
    Yields-gets Q (λ d. select_where (live_of_user user_id) d.sessions) _ db
      (Yields-weaken (λ _. Pending (is_out user_id) []) Q _
        (λ _ db' h.
          All-weaken (λ s k. not-true (live_of_user user_id s) k) db'.sessions
            (Pending-done (is_out user_id) db' h))
        (Yields-for_each (Pending (is_out user_id)) (end_deactivated m actor_id)
          (λ x rest d h. end_deactivated-Pending m actor_id user_id x rest d h) _ db
          (Pending-start (is_out user_id) (live_of_user user_id) db
            (All-tabulate (λ s k. rw k refl) db.sessions))))

when_ends :
    (m : Moment) (actor_id user_id : String) (leaving : Bool) (db : Db)
    → leaving ≡ true
    → Yields (λ _. HasNoLease user_id) (when leaving (end_sessions m actor_id user_id) db)
unfolding when
when_ends m actor_id user_id leaving db h = rw h (end_sessions-ends m actor_id user_id db)

-- When `updateUser` returns from a change of status to suspended or disabled, no session of the
-- user is live, whatever the session's account, device or state was.
pub update_user-HasNoLease :
    (m : Moment) (actor_id user_id : String) (input : UserPatch) (user : Option ApiUser)
    (db db' : Db)
    → deactivates input.status ≡ true
    → update_user m actor_id user_id input db ≡ ok user db'
    → HasNoLease user_id db'
unfolding update_user gets
update_user-HasNoLease m actor_id user_id input user db db' leaving e =
    let Q : Option ApiUser → Db → Type 0 = λ _. HasNoLease user_id in
    Yields-ok Q _ user db'
      (Yields-transaction Q _ db (
        Yields-gets Q (user_by_id user_id) _ db (
          Yields-or_throw Q (user_by_id user_id db) _ _ db λ current found.
            Yields-ensure Q _ _ _ db λ _. Yields-skip Q _ _ db λ _ db1.
              Yields-skip Q _ _ db1 λ _ db2.
                Yields-bind (λ _. HasNoLease user_id) Q _ _ db2
                  (when_ends m actor_id user_id _ db2 leaving)
                  λ _ db3 h3.
                    Yields-bind (λ _. HasNoLease user_id) Q _ _ db3
                      (Yields-of_Keeps (HasNoLease user_id) _
                        (add_audit-Keeps (HasNoLease user_id) (λ _ _ h. h) m _ _ _ _ _) db3 h3)
                      λ _ db4 h4. h4)))
      e
