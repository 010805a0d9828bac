-- ===== src/Desktop/Roster/Sandbox.antt =====
-- A sign-in that was given up before it was open.
use laap.Base.{
  arith, [], ◌+◌, ◌++◌, ◌∷◌, List, String, Option, Bool, none, some, true, false, refl, ◌≡◌, nat_eq,
  ℕ, if◌then◌else◌, ◌≤◌, ◌<◌, Bool-cases, inl, inr,
}
use laap.Desktop.Roster.{
  drop_ticket, not_provisioning, is_current, fail_sync, note_sync, Cause, Event, Roster, ask_cancel,
  begin_cancel, begin_load, begin_start, begin_sync, change_options, failed, finish_sync, perform,
  provisioning_ended, run, settle_cancel, settle_load, settle_refresh, settle_complete, unmount,
  settle_start, settle_sync, value, end_options,
}
use laap.Desktop.Roster.Newest.{run-append}

if-grows :
    (g : ℕ) (b : Bool) (r t : Roster)
    → g ≤ r.generation
    → g ≤ t.generation
    → g ≤ (if b then r else t).generation
if-grows g true r t h k = h
if-grows g false r t h k = k

same : (r : Roster) → r.generation ≤ r.generation
same r = omega arith

next : (r : Roster) → r.generation ≤ r.generation + 1
next r = omega arith

finish_sync-grows : (epoch : ℕ) (r : Roster) → r.generation ≤ (finish_sync epoch r).generation
unfolding finish_sync
finish_sync-grows epoch r = if-grows _ _ _ _ (same r) (same r)

ask_cancel-grows : (t : Option String) (r : Roster) → r.generation ≤ (ask_cancel t r).generation
ask_cancel-grows none r = same r
ask_cancel-grows (some id) r = same r

provisioning_ended-grows : (r : Roster) → r.generation ≤ (provisioning_ended r).generation
unfolding provisioning_ended
provisioning_ended-grows r = if-grows _ r.mounted _ _ (next r) (same r)

begin_cancel-grows : (r : Roster) → r.generation + 1 ≤ (begin_cancel r).generation
unfolding begin_cancel
begin_cancel-grows r = ask_cancel-grows r.ticket _

failed_sync-grows :
    (epoch now : ℕ) (synced : Bool) (c : Cause) (r : Roster)
    → r.generation ≤ (finish_sync epoch (fail_sync epoch now synced c r)).generation
failed_sync-grows epoch now synced c r =
    let failed_here = fail_sync epoch now synced c r in
    let kept : r.generation ≤ failed_here.generation = elim (Bool-cases (is_current epoch r)) [
      | inl e ↦ rw e (same r)
      | inr e ↦ rw e (same r)
    ] in
    omega (arith, kept, finish_sync-grows epoch failed_here)

end_options-grows : (before : Bool) (r : Roster) → r.generation ≤ (end_options before r).generation
end_options-grows before r = if-grows _ before _ _ (same r) (same r)

perform-grows : (e : Event) (r : Roster) → r.generation ≤ (perform e r).generation
unfolding perform begin_load begin_start settle_complete settle_load begin_sync settle_sync
    settle_refresh change_options settle_start settle_cancel unmount
perform-grows Event.load r = same r
perform-grows Event.start r = next r
perform-grows Event.cancel r = omega (arith, begin_cancel-grows r)
perform-grows Event.complete r =
    provisioning_ended-grows (record r { ticket = none; provisioning = false })
perform-grows Event.ended r = provisioning_ended-grows r
perform-grows (Event.leave before) r =
    let t = record r { mounted = false; requests = r.requests + 1 } in
    omega (arith, begin_cancel-grows t, end_options-grows before (begin_cancel t))
perform-grows (Event.load_answers n (value xs)) r = if-grows _ _ _ _ (same r) (same r)
perform-grows (Event.load_answers n (failed c)) r = if-grows _ _ _ _ (same r) (same r)
perform-grows (Event.sync busy) r = if-grows _ _ _ _ (same r) (same r)
perform-grows (Event.sync_answers epoch now (failed c)) r = failed_sync-grows epoch now false c r
perform-grows (Event.sync_answers epoch now (value s)) r =
    if-grows _ _ _ _
      (if-grows _ s.changed _ _ (same r) (finish_sync-grows epoch (note_sync now s r)))
      (finish_sync-grows epoch r)
perform-grows (Event.refresh_answers epoch now (failed c)) r = failed_sync-grows epoch now true c r
perform-grows (Event.refresh_answers epoch now (value xs)) r =
    let t = if is_current epoch r then record r { accounts = xs } else r in
    let kept : r.generation ≤ t.generation = elim (Bool-cases (is_current epoch r)) [
      | inl e ↦ rw e (same r)
      | inr e ↦ rw e (same r)
    ] in
    omega (arith, kept, finish_sync-grows epoch t)
perform-grows (Event.options before now busy) r =
    let kept = end_options-grows before r in if-grows _ now _ _ (if-grows _ _ _ _ kept kept) kept
perform-grows (Event.started version id) r = if-grows _ _ _ _ (same r) (same r)
perform-grows (Event.was_cancelled none) r = same r
perform-grows (Event.was_cancelled (some owned)) r =
    provisioning_ended-grows (not_provisioning (drop_ticket owned r))

run-grows : (events : List Event) (r : Roster) → r.generation ≤ (run events r).generation
unfolding run
run-grows [] r = same r
run-grows (e ∷ events) r = omega (arith, perform-grows e r, run-grows events (perform e r))

settle_start_late :
    (version : ℕ) (id : String) (r : Roster)
    → version < r.generation
    → settle_start version id r ≡ record r { cancelled = r.cancelled ++ id ∷ [] }
unfolding settle_start
settle_start_late version id r h =
    let other : nat_eq version r.generation ≡ false = ground (arith, h) in
    elim (Bool-cases r.mounted) [ inl m ↦ rw (other, m) refl | inr m ↦ rw m refl ]

-- Where a sign-in is begun and then cancelled before it is open, whatever happens in between and
-- after, then once it is open it is cancelled, and neither the ticket nor anything else changes.
pub run-settle_start :
    (between after : List Event) (id : String) (r : Roster)
    → let s = run (Event.start ∷ between ++ Event.cancel ∷ after) r in
      perform (Event.started (r.generation + 1) id) s
      ≡ record s { cancelled = s.cancelled ++ id ∷ [] }
unfolding perform run begin_start
run-settle_start between after id r =
    let one = run between (begin_start r) in
    let before_it = run-grows between (begin_start r) in
    let after_it = run-grows after (begin_cancel one) in
    rw run-append (
      settle_start_late (r.generation + 1) id _
        (omega (arith, before_it, begin_cancel-grows one, after_it)))
