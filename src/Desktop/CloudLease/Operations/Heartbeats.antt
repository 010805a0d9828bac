-- ===== src/Desktop/CloudLease/Operations/Heartbeats.antt =====
-- When missed heartbeats cost the application its lease.
use laap.Base.{
  Bool-cases, List, String, [], arith, false, if◌then◌else◌, inl, inr, leb, length, none, refl,
  some, suc, true, ℕ, ◌+◌, ◌++◌, ◌∷◌, ◌≡◌, ◌<◌,
}
use laap.Desktop.Action.{
  Act, Cause, Result, attempt, gets, left, continue, modify, ok, pure, thrown, when, ◌>>=◌, ◌>>◌,
}
use laap.Desktop.CloudLease.{set_error, Call, Hook, World, await, failed, value, clear_local_lease}
use laap.Desktop.Action.Holds.{Holds-continue}
use laap.Desktop.CloudLease.Frame.{Frame, clear_local_lease-makes, set_error-Holds}
use laap.Desktop.CloudLease.Operations.{
  beat, check_riot, is_fatal, lose_lease, missed, tick, tick_of,
}

-- the timer, at each of the times
pub ticks : World → List ℕ → Act Hook (Unit {0})
ticks w [] = pure tt
ticks w (now ∷ times) = do tick w now; ticks w times

-- the state after a heartbeat that was missed
abbrev after_miss : String → Hook → Hook
after_miss id h = record h {
  riot_was_seen = true;
  closed_checks = 0;
  missed_heartbeats = h.missed_heartbeats + 1;
  calls = (h.calls ++ Call.is_riot_running ∷ []) ++ Call.heartbeat id ∷ [];
}

abbrev NoSession : Hook → Type 0
NoSession h = h.session_id ≡ none

NoSession-frame : Frame NoSession
NoSession-frame = record { view = λ h accounts loading shown calls k. k }

lose_lease-NoSession :
    (w : World) (message : String) (h : Hook) → NoSession (left (lose_lease w message h))
unfolding lose_lease ◌>>=◌ modify
lose_lease-NoSession w message h =
    Holds-continue {P = NoSession} (clear_local_lease w false _) (λ _. set_error (some message))
      (clear_local_lease-makes NoSession-frame w false _ refl)
      (λ _. set_error-Holds NoSession-frame (some message))

-- without a session the check does nothing
tick_idle : (w : World) (now : ℕ) (h : Hook) → NoSession h → tick w now h ≡ ok tt h
unfolding tick tick_of ◌>>=◌ gets pure
tick_idle w now h free = rw free refl

ticks_idle :
    (w : World) (times : List ℕ) (h : Hook) → NoSession h → NoSession (left (ticks w times h))
unfolding ticks ◌>>=◌ pure
ticks_idle w [] h free = free
ticks_idle w (now ∷ times) h free = rw (tick_idle w now h free) (ticks_idle w times h free)

ticks_after :
    (w : World) (times : List ℕ) (r : Result Hook (Unit {0}))
    → NoSession (left r)
    → NoSession (left (continue r (λ _. ticks w times)))
ticks_after w times (ok u h) free = ticks_idle w times h free
ticks_after w times (thrown c h) free = free

module _ (w : World) (id : String) (cause : Cause) (native : w.has_tauri ≡ true)
    (running : (calls : List Call) → w.running Call.is_riot_running calls ≡ value true)
    (unanswered : (calls : List Call) → w.done (Call.heartbeat id) calls ≡ failed cause)
    (transient : is_fatal cause ≡ false) where
  tick_kept :
      (now : ℕ) (h : Hook)
      → h.session_id ≡ some id
      → leb 4 (h.missed_heartbeats + 1) ≡ false
      → tick w now h ≡ ok tt (after_miss id h)
  unfolding tick tick_of check_riot beat await missed attempt when ◌>>=◌ modify gets
  tick_kept now h held few =
      rw
        (
          held,
          native,
          running h.calls,
          unanswered (h.calls ++ Call.is_riot_running ∷ []),
          transient,
          few,
        )
        refl

  tick_lost :
      (now : ℕ) (h : Hook)
      → h.session_id ≡ some id
      → leb 4 (h.missed_heartbeats + 1) ≡ true
      → NoSession (left (tick w now h))
  unfolding tick tick_of check_riot beat await missed attempt when ◌>>=◌ modify gets lose_lease
      clear_local_lease
  tick_lost now h held many =
      simp
        (
          held,
          native,
          running h.calls,
          unanswered (h.calls ++ Call.is_riot_running ∷ []),
          transient,
          many,
        )
        (lose_lease-NoSession w cause.message (after_miss id h))

  -- While Riot Client runs and every heartbeat fails with an error that does not say that the lease
  -- is over, a lease whose last heartbeats were missed fewer than four times is kept up to the third
  -- miss in a row and given up at the fourth, and not taken again.
  pub ticks-count :
      (times : List ℕ) (h : Hook)
      → h.session_id ≡ some id
      → h.missed_heartbeats < 4
      → (left (ticks w times h)).session_id
        ≡ (if leb 4 (h.missed_heartbeats + length times) then none else some id)
  unfolding ticks ◌>>=◌ pure
  ticks-count [] h held few = ground (arith)
  ticks-count (now ∷ times) h held few = elim (Bool-cases (leb 4 (h.missed_heartbeats + 1))) [
    | inl many ↦
        let over : leb 4 (h.missed_heartbeats + suc (length times)) ≡ true = ground arith in
        rw over (ticks_after w times (tick w now h) (tick_lost now h held many))
    | inr fewer ↦
        let rest = ticks-count times (after_miss id h) held (ground arith) in
        rw (tick_kept now h held fewer) (ground (arith, rest))
  ]
