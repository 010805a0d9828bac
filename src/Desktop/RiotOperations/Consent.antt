-- ===== src/Desktop/RiotOperations/Consent.antt =====
-- No match is left without the user's consent.
use laap.Base.{
  ap, ◌∙◌, Bool, Bool-cases, List, Option, [], false, inl, inr, refl, true, ℕ, ◌+◌, ◌++◌, ◌∷◌, ◌≡◌,
}
use mathlib.Core.Path.{subst}
use laap.Desktop.Action.{
  ◌>>◌, finally, continue, rescue, Act, Cause, Result, attempt, gets, left, modify, ok, pure, throw,
  thrown, ◌>>=◌, as_text,
}
use laap.Desktop.RiotOperations.Frame.{follow-Holds, report-Holds, unlock-Holds}
use laap.Text.{includes}
use laap.Desktop.RiotOperations.{
  begin, attempt_run, run, on_match, Answer, Launch, Provider, Snapshot, World, act, answered, ask,
  consent, decide, failed, failed_status, follow, in_match, note, relaunches, run_action,
  take_snapshot, unlock, value, when_mounted,
}
use laap.Desktop.Action.Holds.{Holds-rescue, Holds-settle, Holds-continue, holds_rules}

-- the native side answers that a match has begun
abbrev pub FindsMatch : {A : Type 0} → Answer A → Type 0
FindsMatch (value a) = ⊥
FindsMatch (failed c) = includes "ACTIVE_MATCH_CONFIRMATION_REQUIRED" (as_text c) ≡ true

-- what may have been run, where the unconfirmed run answers so: after this snapshot, where the user
-- answered so when asked
abbrev pub Allowed : {A : Type 0} → Answer A → Answer Snapshot → Bool → List Bool → Type 0
Allowed b s agreed [] = Unit
Allowed b (failed c) agreed (confirmed ∷ ran) = ⊥
Allowed b (value s) agreed (true ∷ []) = (in_match s ≡ true) × (agreed ≡ true)
Allowed b (value s) agreed (false ∷ []) = in_match s ≡ false
Allowed b (value s) agreed (false ∷ true ∷ []) =
    (in_match s ≡ false) × FindsMatch b × (agreed ≡ true)
Allowed b (value s) agreed (first ∷ second ∷ ran) = ⊥

-- The result of `decide`.
abbrev Decided : Answer Snapshot → Bool → ℕ → Result Provider Bool → Type 0
Decided (failed c) agreed k (ok confirmed p) = ⊥
Decided (value s) agreed k (ok true p) = (p.ran ≡ []) × (in_match s ≡ true) × (agreed ≡ true)
Decided (value s) agreed k (ok false p) = (p.ran ≡ []) × (in_match s ≡ false) × (p.asked ≡ k)
Decided s agreed k (thrown c p) = p.ran ≡ []

module _ {A : Type 0} (w : World A) where
  decide-Decided :
      (options : Option Launch) (p : Provider) (a : Answer Snapshot)
      → w.snapshot p.snapshots ≡ a
      → p.ran ≡ []
      → Decided a (w.consents p.asked) p.asked (decide w options p)
  unfolding decide take_snapshot consent ask ◌>>=◌ gets modify pure throw
  decide-Decided options p (failed c) e free = rw e free
  decide-Decided options p (value s) e free =
      elim (Bool-cases
        (relaunches w options s (note w s (record p { snapshots = p.snapshots + 1 })).active_key)) [
          | inl again ↦ rw (e, again) free
          | inr fresh ↦ elim (Bool-cases (in_match s)) [
            | inl game ↦ elim (Bool-cases (w.consents p.asked)) [
              | inl agreed ↦ rw (e, fresh, game, agreed) (free, game, refl)
              | inr refused ↦ rw (e, fresh, game, refused) free
            ]
            | inr idle ↦ rw (e, fresh, idle) (free, idle, refl)
          ]
        ]

-- the action, told that the user has confirmed, is run once
module _ {A : Type 0} (w : World A) where
  once :
      (b : Answer A) (c : Cause → Act Provider A) (p : Provider)
      → ((cause : Cause) → c cause p ≡ thrown cause p)
      → (left (rescue (answered w b p) c)).ran ≡ p.ran
  once (value a) c p k = refl
  once (failed cause) c p k = rw (k cause) refl

  answered-ran : {B : Type 0} (b : Answer B) (p : Provider) → (left (answered w b p)).ran ≡ p.ran
  answered-ran (value b) p = refl
  answered-ran (failed c) p = refl

  act_confirmed : (p : Provider) → p.ran ≡ [] → (left (act w true p)).ran ≡ true ∷ []
  unfolding act run_action attempt on_match ◌>>=◌ gets modify throw
  act_confirmed p free =
      once (w.action p.ran true) (on_match w true) (record p { ran = p.ran ++ true ∷ [] })
        (λ cause. refl)
      ∙ ap (λ (ran : List Bool). ran ++ true ∷ []) free

  again :
      (s : Snapshot) (b : Answer A) (p : Provider)
      → in_match s ≡ false
      → p.ran ≡ false ∷ []
      → Allowed b
          (value s)
          (w.consents p.asked)
          (left (rescue (answered w b p) (on_match w false))).ran
  unfolding on_match consent ask run_action ◌>>=◌ gets modify throw pure
  again s (value a) p idle first = rw first idle
  again s (failed cause) p idle first =
      elim (Bool-cases (includes "ACTIVE_MATCH_CONFIRMATION_REQUIRED" (as_text cause))) [
        | inl found ↦ elim (Bool-cases (w.consents p.asked)) [
          | inl agreed ↦
              let q = record p { asked = p.asked + 1; ran = p.ran ++ true ∷ [] } in
              let ran =
                answered-ran (w.action p.ran true) q
                ∙ ap (λ (r : List Bool). r ++ true ∷ []) first in
              rw (found, agreed) (rw ran (idle, found, refl))
          | inr refused ↦ rw (found, refused) (rw first idle)
        ]
        | inr other ↦ rw other (rw first idle)
      ]

  act_unasked :
      (s : Snapshot) (p : Provider)
      → in_match s ≡ false
      → p.ran ≡ []
      → Allowed (w.action [] false) (value s) (w.consents p.asked) (left (act w false p)).ran
  unfolding act run_action attempt ◌>>=◌ gets modify
  act_unasked s p idle free =
      subst
        (λ ran.
          Allowed (w.action ran false) (value s) (w.consents p.asked) (left (act w false p)).ran)
        free
        (again s (w.action p.ran false) (record p { ran = p.ran ++ false ∷ [] }) idle
          (ap (λ (ran : List Bool). ran ++ false ∷ []) free))

  -- from the decision on
  Decided-Allowed :
      (options : Option Launch) (a : Answer Snapshot) (k : ℕ) (r : Result Provider Bool)
      → Decided a (w.consents k) k r
      → Allowed
          (w.action [] false)
          a
          (w.consents k)
          (left (
            continue r λ confirmed.
              act w confirmed >>= λ result. follow w options >>= λ done. pure result)).ran
  unfolding ◌>>=◌
  Decided-Allowed options (failed c) k (ok confirmed p) h = absurd h
  Decided-Allowed options (failed c) k (thrown e p) h = rw h tt
  Decided-Allowed options (value s) k (thrown e p) h = rw h tt
  Decided-Allowed options (value s) k (ok true p) h =
      Holds-continue {P = λ q. Allowed (w.action [] false) (value s) (w.consents k) q.ran}
        (act w true p) (λ result. follow w options >>= λ done. pure result)
        (rw (act_confirmed p h.0) (h.1, h.2))
        (λ result.
          search
            (holds_rules, follow-Holds w (Allowed (w.action [] false) (value s) (w.consents k))))
  Decided-Allowed options (value s) k (ok false p) h =
      Holds-continue {P = λ q. Allowed (w.action [] false) (value s) (w.consents k) q.ran}
        (act w false p) (λ result. follow w options >>= λ done. pure result)
        (rw (← h.2) (act_unasked s p h.1 h.0))
        (λ result.
          search
            (holds_rules, follow-Holds w (Allowed (w.action [] false) (value s) (w.consents k))))

  -- Of an operation that starts when none is under way: the action is run at most twice; it is run without
  -- confirmation only where the snapshot before it shows no match, and with it only where the user has
  -- agreed: either before the first run, where the snapshot shows a match, or after a first run that
  -- failed with ACTIVE_MATCH_CONFIRMATION_REQUIRED from the native side. Where the snapshot fails it is
  -- not run.
  pub run-Allowed :
      (options : Option Launch) (p : Provider)
      → p.locked ≡ false
      → p.ran ≡ []
      → Allowed
          (w.action [] false)
          (w.snapshot p.snapshots)
          (w.consents p.asked)
          (left (run w options p)).ran
  unfolding run ◌>>=◌ gets modify attempt_run attempt finally
  run-Allowed options p idle free =
      let R = Allowed (w.action [] false) (w.snapshot p.snapshots) (w.consents p.asked) in
      let body : R (left (attempt_run w options (begin w options p))).ran =
        Decided-Allowed options (w.snapshot p.snapshots) p.asked
          (decide w options (begin w options p))
          (decide-Decided w options (begin w options p) (w.snapshot p.snapshots) refl free) in
      simp idle (
        Holds-settle (λ q. R q.ran)
          (rescue (attempt_run w options (begin w options p))
            (λ cause. when_mounted w (failed_status w options cause) >> throw cause))
          (unlock w)
          (Holds-rescue {P = λ q. R q.ran} (attempt_run w options (begin w options p))
            (λ cause. when_mounted w (failed_status w options cause) >> throw cause) body
            (report-Holds w R options))
          (unlock-Holds w R))
