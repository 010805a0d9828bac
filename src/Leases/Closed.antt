-- ===== src/Leases/Closed.antt =====
-- Ending a session is never refused by the schema: the statement returns, with each row rewritten.
use laap.Base.{
  Bool, Bool-cases, List, String, [], all, and-true, arith, false, inl, inr, not-true, refl, some,
  true, ℕ, ◌==◌, ◌∷◌, ◌≡◌,
}
use laap.Base.Keys.{exists_where-update}
use laap.Base.Rows.{distinct_by, exists_where, find_where, update_where}
use laap.Db.{update_sessions, write_sessions}
use laap.Db.Queries.{session_by_id}
use laap.Exec.{constraint, err, ok}
use laap.Leases.{close_session, closed}
use laap.Schema.{Db, Session, reason_allowed, reason_check, sessions_clash, sessions_ok}
use laap.Types.{ReleaseReason, SessionStatus, is_live}

closed-clash_left :
    (now : ℕ) (status : SessionStatus) (reason : ReleaseReason) (s t : Session)
    → is_live status ≡ false
    → sessions_clash (closed now status reason s) t ≡ true
    → sessions_clash s t ≡ true
closed-clash_left now status reason s t over h = ground arith

closed-clash_right :
    (now : ℕ) (status : SessionStatus) (reason : ReleaseReason) (s t : Session)
    → is_live status ≡ false
    → sessions_clash s (closed now status reason t) ≡ true
    → sessions_clash s t ≡ true
closed-clash_right now status reason s t over h = ground arith

distinct-closed :
    (now : ℕ) (status : SessionStatus) (reason : ReleaseReason) (p : Session → Bool)
    → is_live status ≡ false
    → (xs : List Session) → distinct_by sessions_clash xs ≡ true
    → distinct_by sessions_clash (update_where p (closed now status reason) xs) ≡ true
unfolding distinct_by update_where
distinct-closed now status reason p over [] h = refl
distinct-closed now status reason p over (s ∷ xs) h =
    let f = closed now status reason in
    let (fresh, distinct) = and-true _ _ h in
    let apart : exists_where (sessions_clash s) xs ≡ false = not-true _ fresh in
    let rest = distinct-closed now status reason p over xs distinct in
    elim (Bool-cases (p s)) [
      | inl hit ↦
          let kept =
            exists_where-update p (sessions_clash s) (sessions_clash (f s)) f
              (λ t k. closed-clash_left now status reason s t over k)
              (λ t k.
                closed-clash_right now status reason s t over
                  (closed-clash_left now status reason s (f t) over k))
              xs apart in
          rw (hit, kept, rest) refl
      | inr miss ↦
          let kept =
            exists_where-update p (sessions_clash s) (sessions_clash s) f (λ t k. k)
              (λ t k. closed-clash_right now status reason s t over k) xs apart in
          rw (miss, kept, rest) refl
    ]

all-closed :
    (now : ℕ) (status : SessionStatus) (reason : ReleaseReason) (p : Session → Bool)
    → reason_allowed reason ≡ true
    → (xs : List Session) → all (λ s. reason_check s.release_reason) xs ≡ true
    → all (λ s. reason_check s.release_reason) (update_where p (closed now status reason) xs) ≡ true
unfolding update_where
all-closed now status reason p allowed [] h = refl
all-closed now status reason p allowed (s ∷ xs) h =
    ground (arith, all-closed now status reason p allowed xs)

-- the rows after the statement
abbrev pub closed_rows : ℕ → SessionStatus → ReleaseReason → String → Db → List Session
closed_rows now status reason id db =
    update_where (λ s. s.id == id) (closed now status reason) db.sessions

pub sessions_ok-closed :
    (now : ℕ) (status : SessionStatus) (reason : ReleaseReason) (id : String) (db : Db)
    → is_live status ≡ false
    → reason_allowed reason ≡ true
    → sessions_ok db.sessions ≡ true
    → sessions_ok (closed_rows now status reason id db) ≡ true
unfolding sessions_ok
sessions_ok-closed now status reason id db over allowed h =
    let (distinct, checked) = and-true _ _ h in
    rw
      (
        distinct-closed now status reason (λ s. s.id == id) over db.sessions distinct,
        all-closed now status reason (λ s. s.id == id) allowed db.sessions checked,
      )
      refl

pub close_session-returns :
    (now : ℕ) (status : SessionStatus) (reason : ReleaseReason) (id : String) (db : Db)
    → is_live status ≡ false
    → reason_allowed reason ≡ true
    → sessions_ok db.sessions ≡ true
    → close_session now status reason id db
      ≡ ok tt (record db { sessions = closed_rows now status reason id db })
unfolding close_session update_sessions write_sessions
close_session-returns now status reason id db over allowed h =
    rw (sessions_ok-closed now status reason id db over allowed h) refl

-- A lapsed lease has a reason that the CHECK does not list.
all-refused :
    (now : ℕ) (status : SessionStatus) (reason : ReleaseReason) (id : String) (s : Session)
    → reason_allowed reason ≡ false
    → (xs : List Session) → find_where (λ x. x.id == id) xs ≡ some s
    → all
        (λ s. reason_check s.release_reason)
        (update_where (λ x. x.id == id) (closed now status reason) xs)
      ≡ false
unfolding update_where find_where
all-refused now status reason id s refused [] e = cc
all-refused now status reason id s refused (x ∷ xs) e =
    ground (arith, all-refused now status reason id s refused xs)

pub close_session-refused :
    (now : ℕ) (status : SessionStatus) (reason : ReleaseReason) (id : String) (s : Session)
    (db : Db)
    → reason_allowed reason ≡ false
    → session_by_id id db ≡ some s
    → close_session now status reason id db ≡ err constraint db
unfolding close_session update_sessions write_sessions sessions_ok
close_session-refused now status reason id s db refused e =
    let unlisted = all-refused now status reason id s refused db.sessions e in ground arith
