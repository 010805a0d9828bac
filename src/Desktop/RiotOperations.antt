-- ===== src/Desktop/RiotOperations.antt =====
-- One operation on Riot Client at a time, and no match left without consent: `run` of
-- apps/desktop/src/context/RiotOperations.tsx. The native side, the user, the clock and the action that
-- is run answer by the fields of `World`.
pub mod State
pub mod Frame
pub mod Consent
pub mod Tracking
mod Tests
use Prim.Native.String
pub use laap.Desktop.RiotOperations.State.{
  Answer, Launch, Provider, Snapshot, World, any_running, failed, in_match, value,
}
use laap.Text.{includes}
use laap.Base.{
  Bool, List, Option, String, [], false, get_or, if◌then◌else◌, is_some, leb, none, not, some, suc,
  true, zero, ℕ, ◌&&◌, ◌+◌, ◌++◌, ◌==◌, ◌||◌, ◌∷◌,
}
use laap.Desktop.Action.{
  Act, Cause, as_text, attempt, concat, error, finally, gets, modify, ok, pure, throw, thrown, when,
  ◌>>=◌, ◌>>◌,
}

-- a round a second, up to two minutes
abbrev rounds : ℕ
rounds = 121

module _ {A : Type 0} (w : World A) where
  abbrev answered : {B : Type 0} → Answer B → Act Provider B
  answered (value b) p = ok b p
  answered (failed c) p = thrown c p

  -- what a snapshot shows, while the provider is mounted
  abbrev note : Snapshot → Provider → Provider
  note s p = record p {
    running = if p.mounted then any_running s else p.running;
    active_key = if p.mounted && (not (any_running s) && not p.locked) then none else p.active_key;
  }

  -- `snapshot`
  pub take_snapshot : Act Provider Snapshot
  take_snapshot = do
    n ← gets (λ p. p.snapshots)
    modify (λ p. record p { snapshots = n + 1 })
    s ← answered (w.snapshot n)
    modify (note s)
    pure s

  -- `ask`: the dialog, and its answer
  pub ask : Act Provider Bool
  ask = do n ← gets (λ p. p.asked); modify (λ p. record p { asked = n + 1 }); pure (w.consents n)

  abbrev cancelled : Cause
  cancelled = error "Operation cancelled. Your game is still running."

  pub run_action : Bool → Act Provider A
  run_action confirmed = do
    before ← gets (λ p. p.ran)
    modify (λ p. record p { ran = before ++ confirmed ∷ [] })
    answered (w.action before confirmed)

  pub consent : Act Provider (Unit {0})
  consent = do agreed ← ask; if agreed then pure tt else throw cancelled

  -- this profile already has a running client
  abbrev relaunches : Option Launch → Snapshot → Option String → Bool
  relaunches none s key = false
  relaunches (some l) s none = false
  relaunches (some l) s (some key) = not l.allow_relaunch && (key == l.launch_key && any_running s)

  -- up to the action: whether the user has confirmed
  pub decide : Option Launch → Act Provider Bool
  decide options = do
    s ← take_snapshot
    key ← gets (λ p. p.active_key)
    if relaunches options s key
        then throw (
            error "This profile already has a running client. Use Stop Riot before relaunching it.")
        else if in_match s
        then (consent >> pure true)
        else pure false

  -- the inner catch: the native side has found a match
  on_match : Bool → Cause → Act Provider A
  on_match confirmed cause =
      if not confirmed && includes "ACTIVE_MATCH_CONFIRMATION_REQUIRED" (as_text cause)
      then (consent >> run_action true)
      else throw cause

  pub act : Bool → Act Provider A
  act confirmed = attempt (run_action confirmed) (on_match confirmed)

  abbrev set_status : String → Act Provider (Unit {0})
  set_status status = modify (λ p. record p { launch_status = some status })

  -- what happened while the loop waited
  abbrev pass_time : ℕ → Provider → Provider
  pass_time n p = record p {
    mounted = p.mounted && not (w.unmounts n);
    stop_tracking = p.stop_tracking || (w.stops n || w.unmounts n);
  }

  abbrev waiting_status : Snapshot → String
  waiting_status s =
      if s.riot_client
      then "Riot Client detected · waiting for League Client…"
      else "Waiting for Riot Client to start…"

  abbrev late_status : Snapshot → String
  late_status s =
      if s.riot_client
      then "Riot Client is running, but League has not appeared. Check Riot for sign-in, updates or errors."
      else "No Riot Client detected after 2 minutes. Check the client installation and try again."

  -- what a round makes of its snapshot
  look : ℕ → ℕ → Snapshot → Act Provider (Option Bool)
  look deadline n s =
      if s.league_client || s.league_game
      then (set_status "League Client detected. Continue in the client." >> pure (some true))
      else (do
        set_status (waiting_status s)
        if leb deadline (w.now n)
            then (set_status (late_status s) >> pure (some false))
            else pure none)

  -- One round of the tracking loop: whether the client was detected, or `none` to go round again.
  pub poll : ℕ → ℕ → Act Provider (Option Bool)
  poll deadline n = do
    modify (pass_time n)
    p ← gets (λ q. q)
    if p.mounted && not p.stop_tracking
        then (take_snapshot >>= look deadline n)
        else pure (some false)

  -- `while (mounted.current && !stopTracking.current)`, for at most so many rounds
  pub poll_until : ℕ → ℕ → ℕ → Act Provider (Option Bool)
  poll_until zero deadline n = pure none
  poll_until (suc rounds) deadline n = poll deadline n >>= λ found. elim found [
    | some detected ↦ pure (some detected)
    | none ↦ poll_until rounds deadline (n + 1)
  ]

  pub track : Act Provider (Option Bool)
  track = poll_until rounds (w.started + 120000) 0

  abbrev when_mounted : (Provider → Provider) → Act Provider (Unit {0})
  when_mounted f = modify (λ p. if p.mounted then f p else p)

  watch_start : Act Provider (Unit {0})
  watch_start = do
    found ← track
    p ← gets (λ q. q)
    when (p.stop_tracking && (p.mounted && not (get_or found false))) (
        set_status
          "Stopped waiting. Check Riot Client before trying again; the client was not stopped.")

  abbrev untracked : Cause → String
  untracked cause =
      concat "Unable to track client startup: "
        (concat (as_text cause) ". Check Riot Client before retrying.")

  follow_start : Launch → Act Provider (Unit {0})
  follow_start l = do
    modify (λ p. record p { active_key = some l.launch_key; tracking = true })
    finally
        (attempt watch_start
          λ cause. when_mounted (λ p. record p { launch_status = some (untracked cause) }))
        (when_mounted (λ p. record p { tracking = false }))

  pub follow : Option Launch → Act Provider (Unit {0})
  follow none = pure tt
  follow (some l) = do p ← gets (λ q. q); when p.mounted (follow_start l)

  attempt_run : Option Launch → Act Provider A
  attempt_run options = do
    confirmed ← decide options
    result ← act confirmed
    follow options
    pure result

  abbrev failed_status : Option Launch → Cause → Provider → Provider
  failed_status none cause p = p
  failed_status (some l) cause p = record p {
    launch_status = some (concat "Launch could not finish: " (as_text cause));
  }

  -- the finally of `run`
  pub unlock : Act Provider (Unit {0})
  unlock = do
    modify (λ p. record p { locked = false })
    p ← gets (λ q. q)
    when p.mounted (do
      modify (λ q. record q { busy = false })
      attempt (take_snapshot >> pure tt) (λ _. pure tt))

  abbrev started_status : Option Launch → Option String → Option String
  started_status none status = status
  started_status (some l) status = some "Preparing account and starting Riot Client…"

  abbrev begin : Option Launch → Provider → Provider
  begin options p = record p {
    locked = true;
    busy = true;
    stop_tracking = false;
    launch_status = started_status options p.launch_status;
  }

  -- `run`
  pub run : Option Launch → Act Provider A
  run options = do
    p ← gets (λ q. q)
    if p.locked then throw (error "Another Riot operation is in progress.") else (do
      modify (begin options)
      finally
          (attempt (attempt_run options)
            λ cause. when_mounted (failed_status options cause) >> throw cause)
          unlock)
