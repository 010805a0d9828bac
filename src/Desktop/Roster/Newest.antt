-- ===== src/Desktop/Roster/Newest.antt =====
-- The newest load of the profiles is the one that is shown.
use laap.Base.{
  ◌+◌, arith, [], ap, ◌++◌, ap, ◌∷◌, All, not-true, ◌∙◌, Bool-cases, inl, inr, List, String, Option,
  Bool, none, some, true, false, not, refl, ◌≡◌, nat_eq, ℕ, if◌then◌else◌,
}
use laap.Desktop.Roster.{
  begin_load, error_of, listed, run, Answer, Event, Profile, Roster, ask_cancel, begin_cancel,
  begin_start, begin_sync, change_options, failed, finish_sync, perform, provisioning_ended,
  settle_cancel, settle_load, settle_refresh, settle_start, settle_sync, value, SyncResult,
  end_options,
}

-- the event is no newer load, no other list for the same load, and no list that a sync has found
abbrev pub keeps_list : ℕ → Event → Bool
keeps_list n Event.load = false
keeps_list n Event.complete = false
keeps_list n (Event.leave before) = false
keeps_list n (Event.load_answers request answer) = not (nat_eq request n)
keeps_list n (Event.refresh_answers epoch now (value accounts)) = false
keeps_list n e = true

abbrev pub View : Type 0
View = List Profile × Bool × Option String × ℕ × Bool

abbrev pub view : Roster → View
view r = (r.accounts, r.loading, r.shown_error, r.requests, r.mounted)

if-view :
    (v : View) (b : Bool) (r t : Roster) → view r ≡ v → view t ≡ v → view (if b then r else t) ≡ v
if-view v true r t h k = h
if-view v false r t h k = k

begin_sync-view : (busy : Bool) (r : Roster) → view (begin_sync busy r) ≡ view r
unfolding begin_sync
begin_sync-view busy r = if-view _ _ _ _ refl refl

finish_sync-view : (epoch : ℕ) (r : Roster) → view (finish_sync epoch r) ≡ view r
unfolding finish_sync
finish_sync-view epoch r = if-view _ _ _ _ refl refl

provisioning_ended-view : (r : Roster) → view (provisioning_ended r) ≡ view r
unfolding provisioning_ended
provisioning_ended-view r = if-view _ _ _ _ refl refl

settle_sync-view :
    (epoch now : ℕ) (a : Answer SyncResult) (r : Roster) → view (settle_sync epoch now a r) ≡ view r
unfolding settle_sync
settle_sync-view epoch now (failed c) r = finish_sync-view epoch _ ∙ (if-view _ _ _ _ refl refl)
settle_sync-view epoch now (value s) r =
    if-view _ _ _ _ (if-view _ _ _ _ refl (finish_sync-view epoch _)) (finish_sync-view epoch r)

end_options-view : (before : Bool) (r : Roster) → view (end_options before r) ≡ view r
end_options-view before r = if-view _ before _ _ refl refl

change_options-view :
    (before now busy : Bool) (r : Roster) → view (change_options before now busy r) ≡ view r
unfolding change_options
change_options-view before now busy r =
    let kept = end_options-view before r in if-view _ now _ _ (begin_sync-view busy _ ∙ kept) kept

ask_cancel-view : (t : Option String) (r : Roster) → view (ask_cancel t r) ≡ view r
ask_cancel-view none r = refl
ask_cancel-view (some id) r = refl

begin_cancel-view : (r : Roster) → view (begin_cancel r) ≡ view r
unfolding begin_cancel
begin_cancel-view r = ask_cancel-view r.ticket _

settle_cancel-view : (t : Option String) (r : Roster) → view (settle_cancel t r) ≡ view r
unfolding settle_cancel
settle_cancel-view none r = refl
settle_cancel-view (some owned) r = provisioning_ended-view _

other_load-view :
    (request : ℕ) (a : Answer (List Profile)) (r : Roster)
    → not (nat_eq request r.requests) ≡ true
    → view (settle_load request a r) ≡ view r
unfolding settle_load
other_load-view request a r h = elim (Bool-cases r.mounted) [
  | inl m ↦ rw (not-true (nat_eq request r.requests) h, m) refl
  | inr m ↦ rw m refl
]

perform-view :
    (e : Event) (r : Roster) → keeps_list r.requests e ≡ true → view (perform e r) ≡ view r
unfolding perform settle_refresh settle_start begin_start
perform-view Event.start r h = refl
perform-view Event.cancel r h = begin_cancel-view r
perform-view Event.ended r h = provisioning_ended-view r
perform-view (Event.load_answers request a) r h = other_load-view request a r h
perform-view (Event.sync busy) r h = begin_sync-view busy r
perform-view (Event.sync_answers epoch now a) r h = settle_sync-view epoch now a r
perform-view (Event.refresh_answers epoch now (failed c)) r h =
    finish_sync-view epoch _ ∙ (if-view _ _ _ _ refl refl)
perform-view (Event.options before now busy) r h = change_options-view before now busy r
perform-view (Event.started version id) r h = if-view _ _ _ _ refl refl
perform-view (Event.was_cancelled t) r h = settle_cancel-view t r
perform-view Event.load r h = cc
perform-view Event.complete r h = cc
perform-view (Event.leave before) r h = cc
perform-view (Event.refresh_answers epoch now (value xs)) r h = cc

run-view :
    (events : List Event) (n : ℕ) (r : Roster)
    → r.requests ≡ n
    → All (λ e. keeps_list n e ≡ true) events
    → view (run events r) ≡ view r
unfolding run
run-view [] n r e h = refl
run-view (x ∷ events) n r e h =
    let one = perform-view x r (rw e h.0) in
    run-view events n (perform x r) (ap (λ (v : View). v.3) one ∙ e) h.1 ∙ one

pub run-append :
    (before after : List Event) (r : Roster) → run (before ++ after) r ≡ run after (run before r)
unfolding run
run-append [] after r = refl
run-append (x ∷ before) after r = run-append before after (perform x r)

-- what is shown of an answer
abbrev pub shown : Answer (List Profile) → View → View
shown a v = (listed a, false, error_of a, v.3, v.4)

same_number : (n : ℕ) → nat_eq n n ≡ true
same_number n = ground arith

settles :
    (n : ℕ) (a : Answer (List Profile)) (r : Roster)
    → r.requests ≡ n
    → r.mounted ≡ true
    → r.shown_error ≡ none
    → view (settle_load n a r) ≡ shown a (view r)
unfolding settle_load
settles n (value xs) r e m s = rw (m, e, s, same_number n) refl
settles n (failed c) r e m s = rw (m, e, same_number n) refl

-- Once a mounted hook has begun to load its profiles, and until it begins to load them again, finds a new
-- list by a sync or ends, the list, the error and the loading flag are those of the answer to that load as soon as
-- it has arrived, whatever happens before and after it: answers to older loads in any order, syncs, and
-- sign-ins that are begun, opened or cancelled.
pub run-shown :
    (before after : List Event) (a : Answer (List Profile)) (r : Roster)
    → r.mounted ≡ true
    → All (λ e. keeps_list (r.requests + 1) e ≡ true) before
    → All (λ e. keeps_list (r.requests + 1) e ≡ true) after
    → view (run (Event.load ∷ before ++ Event.load_answers (r.requests + 1) a ∷ after) r)
      ≡ (listed a, false, error_of a, r.requests + 1, true)
unfolding run perform begin_load
run-shown before after a r m h k =
    let n = r.requests + 1 in
    let mid = run before (begin_load r) in
    let kept = run-view before n (begin_load r) refl h in
    let settled =
      settles n a mid (ap (λ (v : View). v.3) kept) (ap (λ (v : View). v.4) kept ∙ m)
        (ap (λ (v : View). v.2) kept) in
    let last =
      run-view after n (settle_load n a mid)
        (ap (λ (v : View). v.3) settled ∙ ap (λ (v : View). v.3) kept) k in
    rw run-append (last ∙ settled ∙ ap (shown a) kept ∙ rw m refl)
