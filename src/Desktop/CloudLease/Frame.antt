-- ===== src/Desktop/CloudLease/Frame.antt =====
-- What does not read the roster, the error or the calls is kept by a call and by a load of the
-- roster, and is made by `clearLocalLease` if it is true of the state that has no lease.
use laap.Base.{Bool, List, Option, String, is_some, none, some, true, []}
use laap.Desktop.Action.{left, modify, when, ◌>>=◌, ◌>>◌}
use laap.Desktop.Action.Holds.{Holds, Holds-continue, Holds-modify, holds_rules}
use laap.Desktop.CloudLease.{
  Answer, Call, CloudAccount, Hook, World, await, clear_local_lease, failed, forget_lease,
  load_accounts, restore_riot, set_error, unless_failed, value,
}

-- the fields that an operation on a lease writes beside it
abbrev pub with_view : Hook → List CloudAccount → Bool → Option String → List Call → Hook
with_view h accounts loading shown calls = record h {
  accounts = accounts;
  loading = loading;
  shown_error = shown;
  calls = calls;
}

pub record Frame (P : Hook → Type 0) : Type 0 where
  pub view :
      (h : Hook) (accounts : List CloudAccount) (loading : Bool) (shown : Option String)
      (calls : List Call)
      → P h
      → P (with_view h accounts loading shown calls)

answered :
    {A : Type 0} (P : Hook → Type 0) (a : Answer A) (h : Hook) → P h → P (left (unless_failed a h))
answered P (value a) h k = k
answered P (failed e) h k = k

module _ {P : Hook → Type 0} (frame : Frame P) where
  pub await-Holds :
      {A : Type 0} (c : Call) (answer : Call → List Call → Answer A) → Holds P (await c answer)
  unfolding await
  await-Holds c answer = record {
    at = λ h k.
        answered P (answer c h.calls) _ (frame.view h h.accounts h.loading h.shown_error _ k);
  }

  pub set_error-Holds : (e : Option String) → Holds P (set_error e)
  set_error-Holds e = Holds-modify _ (λ h k. frame.view h h.accounts h.loading e h.calls k)

  set_accounts-Holds : (xs : List CloudAccount) → Holds P (modify (λ h. record h { accounts = xs }))
  set_accounts-Holds xs = Holds-modify _ (λ h k. frame.view h xs h.loading h.shown_error h.calls k)

  set_loading-Holds : (b : Bool) → Holds P (modify (λ h. record h { loading = b }))
  set_loading-Holds b = Holds-modify _ (λ h k. frame.view h h.accounts b h.shown_error h.calls k)

  start_load-Holds : Holds P (modify (λ h. record h { loading = true; shown_error = none }))
  start_load-Holds = Holds-modify _ (λ h k. frame.view h h.accounts true none h.calls k)

  no_accounts-Holds : Holds P (modify (λ h. record h { accounts = []; shown_error = none }))
  no_accounts-Holds = Holds-modify _ (λ h k. frame.view h [] h.loading none h.calls k)

  pub load_accounts-Holds : (w : World) → Holds P (load_accounts w)
  unfolding load_accounts
  load_accounts-Holds w =
      search
        (
          holds_rules, await-Holds, set_error-Holds, set_accounts-Holds, set_loading-Holds,
          start_load-Holds, no_accounts-Holds,
        )
        depth 12

  restore_riot-Holds :
      (w : World) (confirmed : Bool) (owner : Option String)
      → Holds P (restore_riot w confirmed owner)
  unfolding restore_riot
  restore_riot-Holds w confirmed none = search holds_rules
  restore_riot-Holds w confirmed (some id) = search (holds_rules, await-Holds) depth 12

  pub clear_local_lease-makes :
      (w : World) (confirmed : Bool) (h : Hook)
      → P (forget_lease w h)
      → P (left (clear_local_lease w confirmed h))
  unfolding clear_local_lease ◌>>=◌
  clear_local_lease-makes w confirmed h start =
      Holds-continue {P = P} (restore_riot w confirmed h.owner (forget_lease w h))
        (λ warning. load_accounts w >> when (is_some warning) (set_error warning))
        ((restore_riot-Holds w confirmed h.owner).at (forget_lease w h) start)
        (λ warning. search (holds_rules, set_error-Holds, load_accounts-Holds) depth 12)
