-- ===== src/Desktop/RiotOperations/Frame.antt =====
-- What is known of the runs of the action stays known while nothing is run.
use laap.Base.{suc, zero, Bool, List, Option, false, none, some, true, ℕ, ◌+◌, if◌then◌else◌}
use laap.Desktop.Action.{◌>>◌, Cause, pure, throw}
use laap.Desktop.RiotOperations.{
  Answer, Launch, Provider, Snapshot, World, answered, failed, failed_status, follow, follow_start,
  look, poll, poll_until, take_snapshot, track, unlock, value, watch_start, when_mounted,
}
use laap.Desktop.Action.Holds.{Holds, Holds-bind, Holds-throw, Holds-modify, holds_rules}

module _ {A : Type 0} (w : World A) where
  answered-Holds :
      {B : Type 0} (R : List Bool → Type 0) (b : Answer B) → Holds (λ p. R p.ran) (answered w b)
  answered-Holds R (value b) = record { at = λ p h. h }
  answered-Holds R (failed c) = record { at = λ p h. h }

module _ {A : Type 0} (w : World A) (R : List Bool → Type 0) where
  if_mounted :
      (f : Provider → Provider)
      → ((p : Provider) → R p.ran → R (f p).ran)
      → (b : Bool) (p : Provider) → R p.ran
      → R (if b then f p else p).ran
  if_mounted f k true p h = k p h
  if_mounted f k false p h = h

  when_mounted-Holds :
      (f : Provider → Provider)
      → ((p : Provider) → R p.ran → R (f p).ran)
      → Holds (λ p. R p.ran) (when_mounted w f)
  when_mounted-Holds f k = Holds-modify _ (λ p h. if_mounted f k p.mounted p h)

  take_snapshot-Holds : Holds (λ p. R p.ran) (take_snapshot w)
  unfolding take_snapshot
  take_snapshot-Holds = search (holds_rules, Holds-modify, answered-Holds w R) depth 12

  look-Holds : (deadline n : ℕ) (s : Snapshot) → Holds (λ p. R p.ran) (look w deadline n s)
  unfolding look
  look-Holds deadline n s = search (holds_rules, Holds-modify) depth 12

  poll-Holds : (deadline n : ℕ) → Holds (λ p. R p.ran) (poll w deadline n)
  unfolding poll
  poll-Holds deadline n =
      search (holds_rules, Holds-modify, look-Holds, take_snapshot-Holds) depth 12

  next-Holds :
      (k deadline n : ℕ) (found : Option Bool)
      → Holds (λ p. R p.ran) (poll_until w k deadline (n + 1))
      → Holds
          (λ p. R p.ran)
          (elim found [
            | some detected ↦ pure (some detected)
            | none ↦ poll_until w k deadline (n + 1)
          ])
  next-Holds k deadline n none later = later
  next-Holds k deadline n (some d) later = search holds_rules

  poll_until-Holds : (k deadline n : ℕ) → Holds (λ p. R p.ran) (poll_until w k deadline n)
  unfolding poll_until
  poll_until-Holds zero deadline n = search holds_rules
  poll_until-Holds (suc k) deadline n =
      Holds-bind _ _ (poll-Holds deadline n)
        λ found. next-Holds k deadline n found (poll_until-Holds k deadline (n + 1))

  watch_start-Holds : Holds (λ p. R p.ran) (watch_start w)
  unfolding watch_start track
  watch_start-Holds = search (holds_rules, Holds-modify, poll_until-Holds) depth 12

  follow_start-Holds : (l : Launch) → Holds (λ p. R p.ran) (follow_start w l)
  unfolding follow_start
  follow_start-Holds l =
      search (holds_rules, Holds-modify, watch_start-Holds, when_mounted-Holds) depth 12

  pub follow-Holds : (options : Option Launch) → Holds (λ p. R p.ran) (follow w options)
  unfolding follow
  follow-Holds none = search holds_rules
  follow-Holds (some l) = search (holds_rules, follow_start-Holds)

  pub unlock-Holds : Holds (λ p. R p.ran) (unlock w)
  unfolding unlock
  unlock-Holds = search (holds_rules, Holds-modify, take_snapshot-Holds) depth 12

  failed_status-ran :
      (options : Option Launch) (c : Cause) (p : Provider)
      → R p.ran
      → R (failed_status w options c p).ran
  failed_status-ran none c p h = h
  failed_status-ran (some l) c p h = h

  pub report-Holds :
      (options : Option Launch) (c : Cause)
      → Holds (λ p. R p.ran) (when_mounted w (failed_status w options c) >> throw {A = A} c)
  report-Holds options c =
      Holds-bind _ _ (when_mounted-Holds (failed_status w options c) (failed_status-ran options c))
        (λ _. Holds-throw c)
