-- ===== src/Leases/Closing.antt =====
-- A loop that ends the sessions of a selection, one row at a time: what holds of every other row and
-- of every ended row holds of all rows when it is done.
use laap.Base.{
  All, All-weaken, Bool, Bool-cases, List, String, [], arith, eq_iff, eq_refl, false, inl, inr,
  refl, true, ℕ, ◌==◌, ◌||◌, ◌∷◌, ◌≡◌,
}
use laap.Audit.{add_audit, add_audit-Keeps}
use laap.Base.Keys.{select_where-covers}
use laap.Base.Rows.{exists_where, select_where, update_where}
use laap.Db.{Moment, update_sessions, write_sessions}
use laap.Exec.{◌>>◌}
use laap.Exec.Keeps.{Keeps}
use laap.Exec.Yields.{Yields, Yields-bind, Yields-of_Keeps}
use laap.Leases.{close_session, closed}
use laap.Schema.{AuditLog, Db, Payload, Session}
use laap.Types.{ReleaseReason, SessionStatus, is_live}

-- `G` holds of each row, or the row is still to be ended.
pub record Pending (G : Db → Session → Bool) (rest : List Session) (db : Db) : Type 0 where
  pub rows : All (λ s. (G db s || exists_where (λ r. r.id == s.id) rest) ≡ true) db.sessions

-- What a loop of ends may ask of a row: nothing of other sessions or of the log, and nothing of a
-- row that has ended.
pub record Closable (G : Db → Session → Bool) : Type 0 where
  pub stable :
      (db : Db) (rows : List Session) (logs : List AuditLog) (s : Session)
      → G (record db { sessions = rows; audit_logs = logs }) s ≡ G db s
  pub over :
      (db : Db) (now : ℕ) (status : SessionStatus) (reason : ReleaseReason) (s : Session)
      → is_live status ≡ false
      → G db (closed now status reason s) ≡ true

module _ (G : Db → Session → Bool) (c : Closable G) where
  restate :
      (rest : List Session) (db : Db) (rows : List Session) (logs : List AuditLog)
      (xs : List Session)
      → All (λ s. (G db s || exists_where (λ r. r.id == s.id) rest) ≡ true) xs
      → All
          (λ s.
            (G (record db { sessions = rows; audit_logs = logs }) s
              || exists_where (λ r. r.id == s.id) rest)
            ≡ true)
          xs
  restate rest db rows logs [] h = tt
  restate rest db rows logs (s ∷ xs) h =
      (rw (c.stable db rows logs s) h.0, restate rest db rows logs xs h.1)

  pub Pending-audit :
      (rest : List Session) (m : Moment) (actor_id action entity_type entity_id : String)
      (payload : Payload)
      → Keeps (Pending G rest) (add_audit m actor_id action entity_type entity_id payload)
  Pending-audit rest =
      add_audit-Keeps (Pending G rest)
        λ db rows h. record { rows = restate rest db db.sessions rows db.sessions h.rows }

  close_row :
      (x : Session) (rest : List Session) (db : Db) (now : ℕ) (status : SessionStatus)
      (reason : ReleaseReason) (rows : List Session)
      → is_live status ≡ false
      → All (λ s. (G db s || exists_where (λ r. r.id == s.id) (x ∷ rest)) ≡ true) rows
      → All
          (λ s. (G db s || exists_where (λ r. r.id == s.id) rest) ≡ true)
          (update_where (λ s. s.id == x.id) (closed now status reason) rows)
  unfolding update_where exists_where
  close_row x rest db now status reason [] over h = tt
  close_row x rest db now status reason (s ∷ rows) over h = elim (Bool-cases (s.id == x.id)) [
    | inl hit ↦
        rw (hit, c.over db now status reason s over)
          (refl, close_row x rest db now status reason rows over h.1)
    | inr miss ↦ rw miss (
      ground (arith, h.0, eq_iff x.id s.id, eq_iff s.id x.id),
      close_row x rest db now status reason rows over h.1,
    )
  ]

  pub close_session-Pending :
      (x : Session) (rest : List Session) (db : Db) (now : ℕ) (status : SessionStatus)
      (reason : ReleaseReason)
      → is_live status ≡ false
      → Pending G (x ∷ rest) db
      → Yields (λ _. Pending G rest) (close_session now status reason x.id db)
  unfolding close_session update_sessions write_sessions
  close_session-Pending x rest db now status reason over h =
      let rows = update_where (λ s. s.id == x.id) (closed now status reason) db.sessions in
      let new : Pending G rest (record db { sessions = rows }) = record {
        rows =
            restate rest db rows db.audit_logs rows
              (close_row x rest db now status reason db.sessions over h.rows);
      } in
      ground (arith, new)

  -- The body of each such loop: end the row, and log it.
  pub end_row-Pending :
      (m : Moment) (x : Session) (status : SessionStatus) (reason : ReleaseReason)
      (actor_id action entity_type entity_id : String) (payload : Payload) (rest : List Session)
      (db : Db)
      → is_live status ≡ false
      → Pending G (x ∷ rest) db
      → Yields
          (λ _. Pending G rest)
          ((close_session m.now status reason x.id
              >> add_audit m actor_id action entity_type entity_id payload)
            db)
  end_row-Pending m x status reason actor_id action entity_type entity_id payload rest db over h =
      Yields-bind (λ _. Pending G rest) (λ _. Pending G rest) _ _ db
        (close_session-Pending x rest db m.now status reason over h)
        λ _.
          Yields-of_Keeps (Pending G rest) _
            (Pending-audit rest m actor_id action entity_type entity_id payload)

start_rows :
    (G : Db → Session → Bool) (p : Session → Bool) (db : Db) (rows chosen : List Session)
    → All (λ s. p s ≡ false → G db s ≡ true) rows
    → All (λ s. p s ≡ true → exists_where (λ r. r.id == s.id) chosen ≡ true) rows
    → All (λ s. (G db s || exists_where (λ r. r.id == s.id) chosen) ≡ true) rows
start_rows G p db [] chosen h k = tt
start_rows G p db (s ∷ rows) chosen h k = (
  elim (Bool-cases (p s)) [
    | inl hit ↦ let a = k.0 hit in ground arith
    | inr miss ↦ let b = h.0 miss in ground arith
  ],
  start_rows G p db rows chosen h.1 k.1,
)

-- At the start, a row outside the selection must already be as it should.
pub Pending-start :
    (G : Db → Session → Bool) (p : Session → Bool) (db : Db)
    → All (λ s. p s ≡ false → G db s ≡ true) db.sessions
    → Pending G (select_where p db.sessions) db
Pending-start G p db h = record {
  rows =
      start_rows G p db db.sessions (select_where p db.sessions) h
        (select_where-covers (λ r s. r.id == s.id) (λ s. eq_refl s.id) p db.sessions);
}

-- At the end no row is left.
pub Pending-done :
    (G : Db → Session → Bool) (db : Db) → Pending G [] db → All (λ s. G db s ≡ true) db.sessions
unfolding exists_where
Pending-done G db h = All-weaken (λ s k. ground arith) db.sessions h.rows
