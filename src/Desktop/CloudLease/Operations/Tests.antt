-- ===== src/Desktop/CloudLease/Operations/Tests.antt =====
-- The hook under a server that goes offline.
use laap.Base.{
  List, [], arith, some, none, true, false, refl, ℕ, ◌∷◌, ◌≡◌, ◌++◌, if◌then◌else◌, leb, length,
  ◌+◌,
}
use laap.Desktop.Action.{Cause, error, left, thrown, ◌>>=◌, pure}
use laap.Desktop.CloudLease.{Call, Hook, LeaseUiState, Reason, Stored, World, await, failed, value}
use laap.Desktop.CloudLease.Operations.{
  enter_client, hold_lease, is_fatal, launch, release_previous,
}
use laap.Desktop.CloudLease.Operations.Consistent.{Consistent}
use laap.Desktop.CloudLease.Operations.Events.{Event, mounted, once, run, run-Consistent}
use laap.Desktop.CloudLease.Operations.Heartbeats.{ticks, ticks-count}
use laap.Desktop.CloudLease.Operations.Launching.{
  acquiring, launch-gives_back, launch-keeps_released,
}

abbrev offline : Cause
offline = error "offline"

-- only the first lease is answered
abbrev gone : World
gone = record {
  has_tauri = true;
  storage_works = true;
  user = some "u1";
  device_id = some "d1";
  device_error = none;
  listed = λ c calls. value [];
  text_of = λ c calls. value "s1";
  running = λ c calls. value true;
  done = λ c calls. failed offline;
}

abbrev holding : Hook
holding = record (mounted Stored.nothing) {
  session_id = some "s1";
  active_account_id = some "a1";
  lease_state = LeaseUiState.active;
  owner = some "s1";
}

run-Consistent_example : Consistent (
    run
      ((gone, Event.launch_account (once false) "a1")
        ∷ (gone, Event.tick_at 60000)
        ∷ (gone, Event.logout)
        ∷ [])
      (mounted Stored.nothing))
run-Consistent_example =
    run-Consistent
      ((gone, Event.launch_account (once false) "a1")
        ∷ (gone, Event.tick_at 60000)
        ∷ (gone, Event.logout)
        ∷ [])
      (mounted Stored.nothing) (refl, refl)

abbrev three_minutes : List ℕ
three_minutes = 60000 ∷ 120000 ∷ 180000 ∷ []

ticks-count_example :
    (left (ticks gone three_minutes holding)).session_id
    ≡ (if leb 4 (0 + length three_minutes) then none else some "s1")
unfolding is_fatal
ticks-count_example =
    ticks-count gone "s1" offline refl (λ calls. refl) (λ calls. refl) refl three_minutes holding
      refl (omega arith)

-- the client cannot be started
abbrev acquired : Hook
acquired = hold_lease gone "s1" "a1" (acquiring gone "a1" (mounted Stored.nothing))

launch-gives_back_example :
    (h' : Hook) × (launch gone "a1" false (mounted Stored.nothing) ≡ thrown offline h')
    × (h'.session_id ≡ none)
    × (h'.active_account_id ≡ none)
    × (h'.lease_state ≡ LeaseUiState.idle)
    × (h'.calls
        ≡ (left (enter_client gone "s1" false acquired)).calls
          ++ Call.release "s1" Reason.error_reason ∷ [])
unfolding enter_client ◌>>=◌ await release_previous pure
launch-gives_back_example =
    launch-gives_back gone "a1" false "s1" offline (mounted Stored.nothing) (mounted Stored.nothing)
      (left (enter_client gone "s1" false acquired)) refl refl refl refl

-- the server releases, and refuses the next lease
abbrev busy : World
busy = record gone {
  text_of = λ c calls. failed (error "ACCOUNT_BUSY");
  done = λ c calls. value tt;
}

launch-keeps_released_example :
    (h' : Hook) × (launch busy "a2" false holding ≡ thrown (error "ACCOUNT_BUSY") h')
    × (h'.session_id ≡ some "s1")
    × (h'.lease_state ≡ LeaseUiState.active)
    × (h'.calls
        ≡ ([] ++ Call.release "s1" Reason.manual ∷ []) ++ Call.acquire "a2" (some "d1") ∷ [])
launch-keeps_released_example =
    launch-keeps_released busy "a2" false "s1" (error "ACCOUNT_BUSY") holding refl refl refl refl
      refl
