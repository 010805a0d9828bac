-- ===== src/Views/Scope.antt =====
-- What a user sees of the dashboard is the user's own.
use laap.Base.{
  eq_iff, ◌<◌, true-ne-false, ◌⊎◌, All, Bool, Bool-cases, List, Option, Option-cases, String, [],
  and-true, arith, inl, inr, is_some, map, none, some, true, ℕ, ◌==◌, ◌∷◌, ◌≡◌, ◌≤◌, refl, zero,
  suc,
}
use laap.Base.Rows.{find_where-holds, find_where, count_where, select_where}
use laap.Leases.Release.{assignment_in_force, in_force}
use laap.Schema.{Assignment, Expiry, Account, Db, Device, Session, User, AuditLog}
use laap.Types.{AssignmentStatus, is_active_assignment, is_live}
use mathlib.Core.List.{Mem, mem-cons_of_mem, mem-cons_self}
use laap.Views.Activity.{activity_rows, is_of}
use laap.Views.{
  audit_view, take_rows, SessionView, account_view, comes_first, cons_some, get_metrics, insert_by,
  is_assigned, is_bound, is_free_account, is_healthy, is_listed, is_visible, join, joined,
  list_accounts, list_sessions, order_by, session_view,
}

count_where_mono :
    {A : Type 0} (p q : A → Bool)
    → ((a : A) → p a ≡ true → q a ≡ true)
    → (xs : List A) → count_where p xs ≤ count_where q xs
unfolding count_where
count_where_mono p q imp [] = omega arith
count_where_mono p q imp (x ∷ xs) = let rest = count_where_mono p q imp xs in ground (arith, imp x)

-- For every user and time, the metrics never show more available accounts than accounts, nor more
-- healthy devices than bound ones.
pub get_metrics-bounds :
    (now : ℕ) (scope : Option String) (db : Db)
    → ((get_metrics now scope db).available_accounts ≤ (get_metrics now scope db).total_accounts)
      × ((get_metrics now scope db).healthy_devices ≤ (get_metrics now scope db).bound_devices)
unfolding get_metrics
get_metrics-bounds now scope db = (
  count_where_mono (is_free_account scope db) (is_assigned scope db) (λ a h. (and-true _ _ h).0)
      db.accounts,
  count_where_mono (is_healthy now scope) (is_bound scope) (λ d h. (and-true _ _ h).0) db.devices,
)

All-insert :
    {A : Type 0} (P : A → Type 0) (before : A → A → Bool) (a : A) (xs : List A)
    → P a
    → All P xs
    → All P (insert_by before a xs)
unfolding insert_by
All-insert P before a [] h k = (h, tt)
All-insert P before a (x ∷ xs) h k = elim (Bool-cases (before a x)) [
  | inl here ↦ rw here (h, k)
  | inr later ↦ rw later (k.0, All-insert P before a xs h k.1)
]

All-order :
    {A : Type 0} (P : A → Type 0) (before : A → A → Bool) (xs : List A)
    → All P xs
    → All P (order_by before xs)
unfolding order_by
All-order P before [] h = tt
All-order P before (x ∷ xs) h =
    All-insert P before x (order_by before xs) h.0 (All-order P before xs h.1)

select_where-All :
    {A : Type 0} (p : A → Bool) (xs : List A) → All (λ x. p x ≡ true) (select_where p xs)
unfolding select_where
select_where-All p [] = tt
select_where-All p (x ∷ xs) = elim (Bool-cases (p x)) [
  | inl hit ↦ rw hit (hit, select_where-All p xs)
  | inr miss ↦ rw miss (select_where-All p xs)
]

All-map :
    {A B : Type 0} (P : A → Type 0) (Q : B → Type 0) (f : A → B)
    → ((a : A) → P a → Q (f a))
    → (xs : List A) → All P xs
    → All Q (map f xs)
All-map P Q f step [] h = tt
All-map P Q f step (x ∷ xs) h = (step x h.0, All-map P Q f step xs h.1)

All-join :
    {A B : Type 0} (P : A → Type 0) (Q : B → Type 0) (f : A → Option B)
    → ((a : A) (b : B) → P a → f a ≡ some b → Q b)
    → (xs : List A) → All P xs
    → All Q (join f xs)
unfolding join cons_some
All-join P Q f step [] h = tt
All-join P Q f step (x ∷ xs) h = elim (Option-cases (f x)) [
  | inl alone ↦ rw alone (All-join P Q f step xs h.1)
  | inr (b, partner) ↦ rw partner (step x b h.0 partner, All-join P Q f step xs h.1)
]

-- An assignment of the database gives the account to the user: it is active, and has no end or one
-- whose text does not sort before that of the time.
abbrev pub Assigned : ℕ → String → Db → String → Type 0
Assigned now user_id db account_id =
    (a : Assignment) × Mem a db.assignments
    × (a.account_id ≡ account_id)
    × (a.user_id ≡ user_id)
    × (a.status ≡ AssignmentStatus.active)
    × ((a.expires_at ≡ none) ⊎ ((e : Expiry) × (a.expires_at ≡ some e) × (now < e.passes)))

find_where-Mem :
    {A : Type 0} (p : A → Bool) (xs : List A) (a : A) → find_where p xs ≡ some a → Mem a xs
unfolding find_where
find_where-Mem p [] a e = cc
find_where-Mem p (x ∷ xs) a e = elim (Bool-cases (p x)) [
  | inl hit ↦ let same : x ≡ a = ground arith in rw same mem-cons_self
  | inr miss ↦ mem-cons_of_mem x (find_where-Mem p xs a (ground arith))
]

is_active-eq : (s : AssignmentStatus) → is_active_assignment s ≡ true → s ≡ AssignmentStatus.active
is_active-eq AssignmentStatus.active h = refl
is_active-eq AssignmentStatus.revoked h = cc
is_active-eq AssignmentStatus.expired h = cc

in_force-lasts :
    (now : ℕ) (x : Option Expiry)
    → in_force now x ≡ true
    → (x ≡ none) ⊎ ((e : Expiry) × (x ≡ some e) × (now < e.passes))
in_force-lasts now none h = inl refl
in_force-lasts now (some e) h = inr (e, refl, ground arith)

in_force-Assigned :
    (now : ℕ) (user_id : String) (db : Db) (account_id : String)
    → is_some (assignment_in_force now account_id user_id db) ≡ true
    → Assigned now user_id db account_id
in_force-Assigned now user_id db account_id h =
    elim (Option-cases (assignment_in_force now account_id user_id db)) [
      | inl missing ↦ absurd (true-ne-false h (rw missing refl))
      | inr (a, found) ↦
          let (mine, lasts) = and-true _ _ (find_where-holds _ db.assignments a found) in
          let (of_account, rest) = and-true _ _ mine in
          let (of_user, live) = and-true _ _ rest in
          (
            a,
            find_where-Mem _ db.assignments a found,
            (eq_iff _ _).0 of_account,
            (eq_iff _ _).0 of_user,
            is_active-eq a.status live,
            in_force-lasts now a.expires_at lasts,
          )
    ]

-- Each account that `listAccounts` shows an operator is one that an assignment of the database gives to that
-- operator: one that is active, and has no `expires_at` or one whose text sorts after the text of the
-- time, whatever the order of the list.
pub list_accounts-scoped :
    (collates : String → String → Bool) (now : ℕ) (user_id : String) (db : Db)
    → All (λ v. Assigned now user_id db v.account.id) (list_accounts collates now (some user_id) db)
unfolding list_accounts account_view
list_accounts-scoped collates now user_id db = All-order _ (comes_first collates) _ (
    All-map (λ a. is_visible now (some user_id) db a ≡ true) _ (account_view db)
      (λ a h. in_force-Assigned now user_id db a.id h) _
      (select_where-All (is_visible now (some user_id) db) db.accounts))

joined-session :
    (s : Session) (a : Option Account) (u : Option User) (d : Option Device) (v : SessionView)
    → joined s a u d ≡ some v
    → v.session ≡ s
joined-session s (some a) (some u) (some d) v e = cc
joined-session s none u d v e = cc
joined-session s (some a) none d v e = cc
joined-session s (some a) (some u) none v e = cc

-- Each session that `listSessions` shows an operator is live and the operator's own.
pub list_sessions-scoped :
    (user_id : String) (db : Db)
    → All
        (λ v. (is_live v.session.status ≡ true) × ((v.session.user_id == user_id) ≡ true))
        (list_sessions (some user_id) db)
unfolding list_sessions
list_sessions-scoped user_id db = All-order _ _ _ (
    All-join (λ s. is_listed (some user_id) s ≡ true) _ (session_view db)
      (λ s v h e. rw (joined-session s _ _ _ v e) (and-true _ _ h)) _
      (select_where-All (is_listed (some user_id)) db.sessions))

pub All-take :
    {A : Type 0} (P : A → Type 0) (n : ℕ) (xs : List A) → All P xs → All P (take_rows n xs)
unfolding take_rows
All-take P zero xs h = tt
All-take P (suc n) [] h = tt
All-take P (suc n) (x ∷ xs) h = (h.0, All-take P n xs h.1)

-- Each entry of which `listActivity` tells an operator is the operator's own.
activity_rows-scoped :
    (user_id : String) (db : Db)
    → All (λ r. (r.0.actor_id == user_id) ≡ true) (activity_rows (some user_id) db)
unfolding activity_rows
activity_rows-scoped user_id db = All-take _ 6 _ (
    All-map (λ (l : AuditLog). (l.actor_id == user_id) ≡ true) _ (audit_view db) (λ l h. h) _
      (All-order _ _ _ (select_where-All (is_of (some user_id)) db.audit_logs)))
