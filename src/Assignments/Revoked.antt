-- ===== src/Assignments/Revoked.antt =====
-- Revoking an assignment takes the lease with it.
use laap.Base.{
  All, All-weaken, Bool, Bool-cases, Option, String, [], and-true, arith, eq_iff, eq_refl, false,
  inl, inr, none, not, not-true, refl, some, true, ◌∷◌, ◌≡◌,
}
use laap.Assignments.{end_unassigned, lease_of, revoke_assignment}
use laap.Audit.{add_audit-WellFormed}
use laap.Base.Keys.{find_where_unique}
use laap.Base.Rows.{exists_where, find_where, find_where-none}
use laap.Db.{Moment}
use laap.Db.Queries.{assignment_of}
use laap.Db.WellFormed.{WellFormed, update_assignments-WellFormed}
use laap.Exec.{ok, pure}
use laap.Exec.Yields.{
  Yields, Yields-bind, Yields-gets, Yields-of_Keeps, Yields-ok, Yields-or_throw, Yields-transaction,
  Yields-weaken,
}
use laap.Leases.Closing.{Closable, Pending, Pending-done, end_row-Pending}
use laap.Schema.{Db, Session, sessions_clash, sessions_ok}
use laap.Types.{ReleaseReason, SessionStatus}

abbrev is_left : String → String → Db → Session → Bool
is_left account_id user_id db s = not (lease_of account_id user_id s)

left_Closable : (account_id user_id : String) → Closable (is_left account_id user_id)
left_Closable account_id user_id = record {
  stable = λ db rows logs s. refl;
  over = λ db now status reason s over. ground (arith, over);
}

both_clash :
    (account_id user_id : String) (a b : Session)
    → lease_of account_id user_id a ≡ true
    → lease_of account_id user_id b ≡ true
    → sessions_clash a b ≡ true
both_clash account_id user_id a b p q = ground (
  arith,
  eq_iff a.account_id account_id,
  eq_iff b.account_id account_id,
  eq_iff a.account_id b.account_id,
)

lease-Pending :
    (account_id user_id : String) (db : Db) (s : Session)
    → sessions_ok db.sessions ≡ true
    → find_where (lease_of account_id user_id) db.sessions ≡ some s
    → Pending (is_left account_id user_id) (s ∷ []) db
unfolding sessions_ok exists_where
lease-Pending account_id user_id db s valid found = record {
  rows =
      All-weaken {P = λ x. lease_of account_id user_id x ≡ true → x ≡ s}
        (λ x only. elim (Bool-cases (lease_of account_id user_id x)) [
          | inl holds ↦ rw (only holds, eq_refl s.id) (ground arith)
          | inr free ↦ rw free refl
        ])
        db.sessions
        (find_where_unique (lease_of account_id user_id) sessions_clash
          (both_clash account_id user_id) db.sessions s (and-true _ _ valid).0 found);
}

-- no live session of the account is the user's
abbrev pub HasLeft : String → String → Db → Type 0
HasLeft account_id user_id db = All (λ s. lease_of account_id user_id s ≡ false) db.sessions

end_unassigned-ends :
    (m : Moment) (actor_id account_id user_id : String) (held : Option Session) (db : Db)
    → sessions_ok db.sessions ≡ true
    → find_where (lease_of account_id user_id) db.sessions ≡ held
    → Yields (λ _. HasLeft account_id user_id) (end_unassigned m actor_id held db)
unfolding end_unassigned pure
end_unassigned-ends m actor_id account_id user_id none db valid e =
    find_where-none (lease_of account_id user_id) db.sessions e
end_unassigned-ends m actor_id account_id user_id (some s) db valid e =
    let G = is_left account_id user_id in
    Yields-weaken (λ _. Pending G []) (λ _. HasLeft account_id user_id) _
      (λ _ db' h.
        All-weaken (λ s k. not-true (lease_of account_id user_id s) k) db'.sessions
          (Pending-done G db' h))
      (end_row-Pending G (left_Closable account_id user_id) m s SessionStatus.ended
        ReleaseReason.admin_force_release actor_id _ _ _ _ [] db refl
        (lease-Pending account_id user_id db s valid e))

-- When `revokeAssignment` returns, where the constraints held before it, no live session of the
-- account is the user's any more.
pub revoke_assignment-HasLeft :
    (m : Moment) (actor_id account_id user_id : String) (db db' : Db)
    → WellFormed db
    → revoke_assignment m actor_id account_id user_id db ≡ ok tt db'
    → HasLeft account_id user_id db'
unfolding revoke_assignment
revoke_assignment-HasLeft m actor_id account_id user_id db db' w e =
    let Q : Unit {0} → Db → Type 0 = λ _. HasLeft account_id user_id in
    let kept : (k : Unit {0}) (d : Db) → Type 0 = λ _. WellFormed in
    Yields-ok Q _ tt db'
      (Yields-transaction Q _ db (
        Yields-gets Q (assignment_of account_id user_id) _ db (
          Yields-or_throw Q (assignment_of account_id user_id db) _ _ db λ assignment found.
            Yields-bind kept Q _ _ db
              (Yields-of_Keeps WellFormed _ (update_assignments-WellFormed _ _) db w)
              λ _ db1 w1.
                Yields-bind kept Q _ _ db1
                  (Yields-of_Keeps WellFormed _ (add_audit-WellFormed m _ _ _ _ _) db1 w1)
                  λ _ db2 w2.
                    Yields-gets Q (λ d. find_where (lease_of account_id user_id) d.sessions) _ db2
                      (end_unassigned-ends m actor_id account_id user_id _ db2 w2.sessions refl))))
      e
