-- ===== src/Desktop/CloudLease/Operations/Consistent.antt =====
-- The parts of the hook's state agree, between any two operations.
use laap.Base.{Bool, false, List, Option, String, is_some, none, refl, some, true, ℕ, ◌≡◌}
use laap.Desktop.Action.{Cause, left, modify, ◌>>=◌}
use laap.Desktop.Action.Holds.{Holds, Holds-continue, Holds-modify, holds_rules}
use laap.Desktop.CloudLease.{
  Answer, Call, Hook, LeaseUiState, PersistedLease, Reason, Stored, World, await, clear_local_lease,
  load_accounts,
}
use laap.Desktop.CloudLease.Frame.{Frame, await-Holds, clear_local_lease-makes, load_accounts-Holds}
use laap.Desktop.CloudLease.Operations.{
  hold_lease, resume, beat, check_riot, closed_check, enter_client, give_back, launch, lose_lease,
  missed, release_held, release_previous, restore_for, restore_lease, restore_stored, tick, tick_of,
}

abbrev Agrees : Option String → Option String → LeaseUiState → Option String → Type 0
Agrees none account state owner = (account ≡ none) × (state ≡ LeaseUiState.idle)
Agrees (some id) account state owner =
    (is_some account ≡ true) × (state ≡ LeaseUiState.active) × (owner ≡ some id)

-- with no session there is no account and the state is idle; a session has an account, is active,
-- and owns the Riot settings
abbrev pub Consistent : Hook → Type 0
Consistent h = Agrees h.session_id h.active_account_id h.lease_state h.owner

pub Consistent-frame : Frame Consistent
Consistent-frame = record { view = λ h accounts loading shown calls k. k }

call-Holds :
    {A : Type 0} (c : Call) (answer : Call → List Call → Answer A)
    → Holds Consistent (await c answer)
call-Holds c answer = await-Holds Consistent-frame c answer

ruleset steps = (holds_rules, Holds-modify, call-Holds)

reload-Holds : (w : World) → Holds Consistent (load_accounts w)
reload-Holds w = load_accounts-Holds Consistent-frame w

clear_local_lease-Consistent :
    (w : World) (confirmed : Bool) (h : Hook) → Consistent (left (clear_local_lease w confirmed h))
clear_local_lease-Consistent w confirmed h =
    clear_local_lease-makes Consistent-frame w confirmed h (refl, refl)

clear_local_lease-Holds :
    (w : World) (confirmed : Bool) → Holds Consistent (clear_local_lease w confirmed)
clear_local_lease-Holds w confirmed = record {
  at = λ h k. clear_local_lease-Consistent w confirmed h;
}

pub release_held-Holds :
    (w : World) (id : String) (reason : Reason) (confirmed : Bool)
    → Holds Consistent (release_held w id reason confirmed)
unfolding release_held
release_held-Holds w id reason confirmed = search (steps, clear_local_lease-Holds) depth 12

lose_lease-Holds : (w : World) (message : String) → Holds Consistent (lose_lease w message)
unfolding lose_lease ◌>>=◌ modify
lose_lease-Holds w message = record {
  at = λ h k.
      Holds-continue {P = Consistent} (clear_local_lease w false _) _
        (clear_local_lease-Consistent w false _) (λ _. search steps);
}

missed-Holds : (w : World) (cause : Cause) → Holds Consistent (missed w cause)
unfolding missed
missed-Holds w cause = search (steps, lose_lease-Holds) depth 12

release_previous-Holds :
    (w : World) (held : Option String) → Holds Consistent (release_previous w held)
unfolding release_previous
release_previous-Holds w none = search steps
release_previous-Holds w (some id) = search steps

enter_client-Holds :
    (w : World) (id : String) (confirmed : Bool) → Holds Consistent (enter_client w id confirmed)
unfolding enter_client
enter_client-Holds w id confirmed = search (steps, reload-Holds) depth 12

give_back-Holds :
    (w : World) (id : String) (cause : Cause) → Holds Consistent (give_back w id cause)
unfolding give_back
give_back-Holds w id cause = search steps depth 12

hold_lease-Holds :
    (w : World) (id account_id : String) → Holds Consistent (modify (hold_lease w id account_id))
hold_lease-Holds w id account_id = Holds-modify _ (λ h k. (refl, refl, refl))

pub launch-Holds :
    (w : World) (account_id : String) (confirmed : Bool)
    → Holds Consistent (launch w account_id confirmed)
unfolding launch
launch-Holds w account_id confirmed =
    search
      (
        holds_rules, Holds-modify, call-Holds, hold_lease-Holds, release_previous-Holds,
        enter_client-Holds, give_back-Holds,
      )
      depth 16

resume-Holds : (p : PersistedLease) → Holds Consistent (modify (resume p))
resume-Holds p = Holds-modify _ (λ h k. (refl, refl, refl))

restore_stored-Holds :
    (w : World) (user_id : String) (stored : Stored)
    → Holds Consistent (restore_stored w user_id stored)
unfolding restore_stored
restore_stored-Holds w user_id Stored.nothing = search steps
restore_stored-Holds w user_id Stored.corrupt = search steps
restore_stored-Holds w user_id (Stored.lease p) =
    search (steps, clear_local_lease-Holds, resume-Holds) depth 12

restore_for-Holds :
    (w : World) (user held : Option String) → Holds Consistent (restore_for w user held)
unfolding restore_for
restore_for-Holds w none held = search steps
restore_for-Holds w (some id) (some s) = search steps
restore_for-Holds w (some id) none = search (steps, restore_stored-Holds)

pub restore_lease-Holds : (w : World) → Holds Consistent (restore_lease w)
unfolding restore_lease
restore_lease-Holds w = search (steps, restore_for-Holds)

beat-Holds : (w : World) (id : String) → Holds Consistent (beat w id)
unfolding beat
beat-Holds w id = search steps

closed_check-Holds :
    (w : World) (now : ℕ) (id : String) (h : Hook) → Holds Consistent (closed_check w now id h)
unfolding closed_check
closed_check-Holds w now id h = search (steps, beat-Holds, release_held-Holds) depth 12

check_riot-Holds : (w : World) (now : ℕ) (id : String) → Holds Consistent (check_riot w now id)
unfolding check_riot
check_riot-Holds w now id = search (steps, beat-Holds, closed_check-Holds) depth 12

tick_of-Holds : (w : World) (now : ℕ) (held : Option String) → Holds Consistent (tick_of w now held)
unfolding tick_of
tick_of-Holds w now none = search steps
tick_of-Holds w now (some id) = search (steps, check_riot-Holds, missed-Holds) depth 12

pub tick-Holds : (w : World) (now : ℕ) → Holds Consistent (tick w now)
unfolding tick
tick-Holds w now = search (steps, tick_of-Holds)
