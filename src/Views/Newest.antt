-- ===== src/Views/Newest.antt =====
-- The audit log is shown with its latest entries first.
use mathlib.Core.List.{Perm}
use laap.Base.{
  All, All-weaken, Bool, Bool-cases, List, String, [], ap, arith, inl, inr, leb, length, ltb, map,
  suc, sym, zero, ℕ, ◌++◌, ◌+◌, ◌∙◌, ◌∷◌, ◌≡◌, ◌≤◌,
}
use laap.Schema.{AuditLog, Db}
use laap.Views.{audit_rows, audit_view, drop_rows, insert_by, list_audit, order_by, take_rows}
use laap.Views.Audit.{audit_page}
use laap.Views.Scope.{All-take}
use laap.Views.Pages.{
  drop_rows-drop, entries, length-audit_rows, length-drop, length-take_more, order_by-perm, pages,
  take_rows-length, take_rows-take,
}

-- no entry is later than one that stands before it
abbrev pub IsNewestFirst : List (AuditLog × String) → Type 0
IsNewestFirst [] = Unit
IsNewestFirst (x ∷ xs) = All (λ y. y.0.created_at ≤ x.0.created_at) xs × IsNewestFirst xs

abbrev Latest : List AuditLog → Type 0
Latest [] = Unit
Latest (x ∷ xs) = All (λ y. y.created_at ≤ x.created_at) xs × Latest xs

abbrev is_later : AuditLog → AuditLog → Bool
is_later a b = leb b.created_at a.created_at

All-insert :
    (n : ℕ) (a : AuditLog) (xs : List AuditLog)
    → a.created_at ≤ n
    → All (λ y. y.created_at ≤ n) xs
    → All (λ y. y.created_at ≤ n) (insert_by is_later a xs)
unfolding insert_by
All-insert n a [] h k = (h, tt)
All-insert n a (x ∷ xs) h k = elim (Bool-cases (is_later a x)) [
  | inl here ↦ rw here (h, k)
  | inr later ↦ rw later (k.0, All-insert n a xs h k.1)
]

insert-Latest : (a : AuditLog) (xs : List AuditLog) → Latest xs → Latest (insert_by is_later a xs)
unfolding insert_by
insert-Latest a [] h = (tt, tt)
insert-Latest a (x ∷ xs) h = elim (Bool-cases (is_later a x)) [
  | inl here ↦
      let first : x.created_at ≤ a.created_at = ground arith in
      rw here ((first, All-weaken (λ y k. omega arith) xs h.0), h)
  | inr later ↦
      let first : a.created_at ≤ x.created_at = ground arith in
      rw later (All-insert x.created_at a xs first h.0, insert-Latest a xs h.1)
]

order-Latest : (xs : List AuditLog) → Latest (order_by is_later xs)
unfolding order_by
order-Latest [] = tt
order-Latest (x ∷ xs) = insert-Latest x (order_by is_later xs) (order-Latest xs)

All-views :
    (db : Db) (n : ℕ) (xs : List AuditLog)
    → All (λ y. y.created_at ≤ n) xs
    → All (λ y. y.0.created_at ≤ n) (map (audit_view db) xs)
All-views db n [] h = tt
All-views db n (x ∷ xs) h = (h.0, All-views db n xs h.1)

views-IsNewestFirst :
    (db : Db) (xs : List AuditLog) → Latest xs → IsNewestFirst (map (audit_view db) xs)
views-IsNewestFirst db [] h = tt
views-IsNewestFirst db (x ∷ xs) h =
    (All-views db x.created_at xs h.0, views-IsNewestFirst db xs h.1)

take-IsNewestFirst :
    (n : ℕ) (xs : List (AuditLog × String)) → IsNewestFirst xs → IsNewestFirst (take_rows n xs)
unfolding take_rows
take-IsNewestFirst zero xs h = tt
take-IsNewestFirst (suc n) [] h = tt
take-IsNewestFirst (suc n) (x ∷ xs) h = (All-take _ n xs h.0, take-IsNewestFirst n xs h.1)

drop-IsNewestFirst :
    (n : ℕ) (xs : List (AuditLog × String)) → IsNewestFirst xs → IsNewestFirst (drop_rows n xs)
unfolding drop_rows
drop-IsNewestFirst zero xs h = h
drop-IsNewestFirst (suc n) [] h = tt
drop-IsNewestFirst (suc n) (x ∷ xs) h = drop-IsNewestFirst n xs h.1

audit_page-list : (n offset : ℕ) (db : Db) → (audit_page n offset db).audit ≡ list_audit n offset db
unfolding audit_page list_audit
audit_page-list n offset db = take_rows-take n (drop_rows offset (audit_rows db))

page-IsNewestFirst : (n offset : ℕ) (db : Db) → IsNewestFirst (list_audit n offset db)
unfolding list_audit audit_rows
page-IsNewestFirst n offset db = take-IsNewestFirst n _ (
    drop-IsNewestFirst offset _
      (views-IsNewestFirst db (order_by is_later db.audit_logs) (order-Latest db.audit_logs)))

whole :
    (db : Db)
    → map (λ r. r.0) (list_audit (length db.audit_logs) 0 db) ≡ order_by is_later db.audit_logs
unfolding list_audit audit_rows drop_rows
whole db =
    ap (λ n. map (λ r. r.0) (take_rows n (map (audit_view db) (order_by is_later db.audit_logs))))
      (sym (length-audit_rows db))
    ∙ ap (map (λ r. r.0)) (take_rows-length (map (audit_view db) (order_by is_later db.audit_logs)))
    ∙ entries db (order_by is_later db.audit_logs)

list_audit-pages :
    (n m offset : ℕ) (db : Db)
    → list_audit n offset db ++ list_audit m (offset + n) db ≡ list_audit (n + m) offset db
unfolding list_audit
list_audit-pages n m offset db =
    rw (drop_rows-drop n offset (audit_rows db)) (pages n m (drop_rows offset (audit_rows db)))

audit_page-more :
    (n offset : ℕ) (db : Db)
    → (audit_page n offset db).has_more ≡ ltb (offset + n) (length db.audit_logs)
unfolding audit_page list_audit
audit_page-more n offset db =
    length-take_more n (drop_rows offset (audit_rows db))
    ∙ length-drop n offset (audit_rows db)
    ∙ ap (ltb (offset + n)) (length-audit_rows db)

-- Of the pages of the audit log: a page and the one after it are the page of both sizes; a page says that
-- there are more where the log has more entries than the offset and the size of the page; on each
-- page no entry is later than one before it; and the page of the whole log has each entry as often
-- as the log.
pub audit_page-pages :
    (n m offset : ℕ) (db : Db)
    → ((audit_page n offset db).audit ++ (audit_page m (offset + n) db).audit
        ≡ (audit_page (n + m) offset db).audit)
      × ((audit_page n offset db).has_more ≡ ltb (offset + n) (length db.audit_logs))
      × IsNewestFirst (audit_page n offset db).audit
      × Perm (map (λ r. r.0) (audit_page (length db.audit_logs) 0 db).audit) db.audit_logs
audit_page-pages n m offset db = (
  rw
      (
        audit_page-list n offset db,
        audit_page-list m (offset + n) db,
        audit_page-list (n + m) offset db,
      )
      (list_audit-pages n m offset db),
  audit_page-more n offset db,
  rw (audit_page-list n offset db) (page-IsNewestFirst n offset db),
  rw (audit_page-list (length db.audit_logs) 0 db, whole db) (order_by-perm is_later db.audit_logs),
)
