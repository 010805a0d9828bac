-- ===== src/Leases/Reaper.antt =====
-- The reaper does its whole work: it is refused nothing, and leaves no stale session.
use laap.Base.{
  All, All-tabulate, All-weaken, Bool, List, [], ap, false, length, not, not-true, refl, true, ℕ,
  ◌∙◌, ◌∷◌, ◌≡◌,
}
use laap.Audit.{add_audit}
use laap.Base.Rows.{select_where}
use laap.Db.{Moment}
use laap.Db.WellFormed.{WellFormed}
use laap.Exec.{ok, pure, ◌>>=◌}
use laap.Exec.Succeeds.{Succeeds, Succeeds-bind, Succeeds-for_each, Succeeds-gets, Succeeds-returns}
use laap.Exec.Yields.{Yields, Yields-ok}
use laap.Leases.{close_session, is_stale, reap_session, reap_stale_sessions}
use laap.Leases.Closed.{close_session-returns, closed_rows, sessions_ok-closed}
use laap.Leases.Closing.{Closable, Pending, Pending-done, Pending-start, close_session-Pending}
use laap.Schema.{Db, Session, sessions_ok}
use laap.Types.{ReleaseReason, SessionStatus}

abbrev is_kept : ℕ → Db → Session → Bool
is_kept now db s = not (is_stale now s)

kept_Closable : (now : ℕ) → Closable (is_kept now)
kept_Closable now = record {
  stable = λ db rows logs s. refl;
  over = λ db now' status reason s over. rw over refl;
}

-- the constraints on the sessions, and the rows that are left to reap
record Reaping (now : ℕ) (rest : List Session) (db : Db) : Type 0 where
  pub valid : sessions_ok db.sessions ≡ true
  pub pending : Pending (is_kept now) rest db

reap_session-Reaping :
    (m : Moment) (x : Session) (rest : List Session) (db : Db)
    → Reaping m.now (x ∷ rest) db
    → Succeeds (λ _. Reaping m.now rest) (reap_session m x db)
unfolding reap_session ◌>>=◌ add_audit
reap_session-Reaping m x rest db h =
    let reason = ReleaseReason.heartbeat_timeout in
    let returns =
      close_session-returns m.now SessionStatus.stale reason x.id db refl refl h.valid in
    let closing : Yields (λ _. Pending (is_kept m.now) rest)
        (close_session m.now SessionStatus.stale reason x.id db) =
      close_session-Pending (is_kept m.now) (kept_Closable m.now) x rest db m.now
        SessionStatus.stale reason refl h.pending in
    let after_close : Pending (is_kept m.now) rest
        (record db { sessions = closed_rows m.now SessionStatus.stale reason x.id db }) =
      Yields-ok (λ _. Pending (is_kept m.now) rest) _ tt _ closing returns in
    rw returns (record {
      valid = sessions_ok-closed m.now SessionStatus.stale reason x.id db refl refl h.valid;
      pending = record { rows = after_close.rows };
    })

-- Where the constraints hold, the reaper returns the number of stale sessions, and then no session
-- is stale at that time: none that is live has been silent for over two minutes without grace.
pub reap_stale_sessions-cleans :
    (m : Moment) (db : Db)
    → WellFormed db
    → (db' : Db) × (reap_stale_sessions m db
        ≡ ok (length (select_where (is_stale m.now) db.sessions)) db')
      × All (λ s. is_stale m.now s ≡ false) db'.sessions
unfolding reap_stale_sessions pure
reap_stale_sessions-cleans m db w =
    let stale = select_where (is_stale m.now) db.sessions in
    let Q : ℕ → Db → Type 0 =
      λ n db'. (n ≡ length stale) × All (λ s. is_stale m.now s ≡ false) db'.sessions in
    let (n, db', e, done) = Succeeds-returns Q (reap_stale_sessions m db) (
      Succeeds-gets Q (λ db. select_where (is_stale m.now) db.sessions) _ db
        (Succeeds-bind (λ _. Reaping m.now []) Q _ _ db
          (Succeeds-for_each (Reaping m.now) (reap_session m)
            (λ x rest db1 h. reap_session-Reaping m x rest db1 h) stale db
            (record {
              valid = w.sessions;
              pending =
                  Pending-start (is_kept m.now) (is_stale m.now) db
                    (All-tabulate (λ s k. rw k refl) db.sessions);
            }))
          (λ _ db1 h. (
            refl,
            All-weaken (λ s k. not-true (is_stale m.now s) k) db1.sessions
                (Pending-done (is_kept m.now) db1 h.pending),
          )))) in
    (db', e ∙ ap (λ k. ok k db') done.0, done.1)
