-- ===== src/Desktop/CloudLease/Operations/Launching.antt =====
-- What a launch that fails leaves behind.
use laap.Base.{Bool, String, [], none, refl, some, true, ◌++◌, ◌∷◌, ◌≡◌}
use laap.Desktop.Action.{Cause, attempt, gets, modify, ok, pure, throw, thrown, ◌>>=◌}
use laap.Desktop.CloudLease.{
  Answer, Call, Hook, LeaseUiState, Reason, World, await, failed, unless_failed, value,
}
use laap.Desktop.CloudLease.Operations.{
  drop_lease, enter_client, give_back, hold_lease, launch, release_previous,
}

-- the state in which the lease is acquired
abbrev pub acquiring : World → String → Hook → Hook
acquiring w account_id h = record h { calls = h.calls ++ Call.acquire account_id w.device_id ∷ [] }

-- the state that the catch leaves
abbrev pub given_back : World → String → Hook → Hook
given_back w id h =
    drop_lease w (record h { calls = h.calls ++ Call.release id Reason.error_reason ∷ [] })

settled :
    (a : Answer (Unit {0})) (h : Hook) → attempt (λ _. unless_failed a h) (λ _. pure tt) h ≡ ok tt h
unfolding attempt pure
settled (value u) h = refl
settled (failed c) h = refl

-- the request may fail too
swallowed :
    (w : World) (c : Call) (h : Hook)
    → attempt (await c w.done) (λ _. pure tt) h ≡ ok tt (record h { calls = h.calls ++ c ∷ [] })
unfolding attempt await pure
swallowed w c h = settled (w.done c h.calls) (record h { calls = h.calls ++ c ∷ [] })

give_back_lem :
    (w : World) (id : String) (cause : Cause) (h : Hook)
    → give_back w id cause h ≡ thrown cause (given_back w id h)
unfolding give_back ◌>>=◌ modify throw
give_back_lem w id cause h = rw (swallowed w (Call.release id Reason.error_reason) h) refl

-- Where the client could not be started, after the previous lease was released and the new one
-- acquired, the launch throws that error, its last request releases the new lease, and the
-- application then has no session and no account and shows the state as idle, also if that request
-- fails.
pub launch-gives_back :
    (w : World) (account_id : String) (confirmed : Bool) (id : String) (cause : Cause)
    (h before failing : Hook)
    → w.has_tauri ≡ true
    → release_previous w h.session_id (record h { shown_error = none }) ≡ ok tt before
    → w.text_of (Call.acquire account_id w.device_id) before.calls ≡ value id
    → enter_client w id confirmed (hold_lease w id account_id (acquiring w account_id before))
      ≡ thrown cause failing
    → (h' : Hook) × (launch w account_id confirmed h ≡ thrown cause h')
      × (h'.session_id ≡ none)
      × (h'.active_account_id ≡ none)
      × (h'.lease_state ≡ LeaseUiState.idle)
      × (h'.calls ≡ failing.calls ++ Call.release id Reason.error_reason ∷ [])
unfolding launch ◌>>=◌ modify gets await attempt
launch-gives_back w account_id confirmed id cause h before failing native released acquired broken =
    (
      given_back w id failing,
      simp (native, released, acquired, broken, give_back_lem) refl,
      refl,
      refl,
      refl,
      refl,
    )

-- Where the previous lease was released and the new one is refused, the launch throws, and the
-- application still shows the lease that it has given back, as active.
pub launch-keeps_released :
    (w : World) (account_id : String) (confirmed : Bool) (old : String) (cause : Cause) (h : Hook)
    → w.has_tauri ≡ true
    → h.session_id ≡ some old
    → h.lease_state ≡ LeaseUiState.active
    → w.done (Call.release old Reason.manual) h.calls ≡ value tt
    → w.text_of
        (Call.acquire account_id w.device_id)
        (h.calls ++ Call.release old Reason.manual ∷ [])
      ≡ failed cause
    → (h' : Hook) × (launch w account_id confirmed h ≡ thrown cause h')
      × (h'.session_id ≡ some old)
      × (h'.lease_state ≡ LeaseUiState.active)
      × (h'.calls
          ≡ (h.calls ++ Call.release old Reason.manual ∷ [])
            ++ Call.acquire account_id w.device_id ∷ [])
unfolding launch ◌>>=◌ modify gets await release_previous
launch-keeps_released w account_id confirmed old cause h native held active released refused = (
  record h {
    shown_error = none;
    calls =
        (h.calls ++ Call.release old Reason.manual ∷ [])
        ++ Call.acquire account_id w.device_id ∷ [];
  },
  simp (native, held, released, refused) refl,
  held,
  active,
  refl,
)
