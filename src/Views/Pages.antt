-- ===== src/Views/Pages.antt =====
-- The pages of the audit log.
use native.Mathlib.Nat.{suc-add, zero-add}
use mathlib.Core.List.{Perm}
use mathlib.Core.List.Perm
use laap.Base.{
  Bool, Bool-cases, List, [], ap, arith, inl, inr, length, ltb, map, refl, suc, zero, ℕ, ◌++◌, ◌+◌,
  ◌∙◌, ◌∷◌, ◌≡◌,
}
use laap.Schema.{AuditLog, Db}
use laap.Views.{audit_rows, audit_view, drop_rows, insert_by, order_by, take_rows}

module _ {A : Type 0} where
  take_rows-nil : (n : ℕ) (xs : List A) → xs ≡ [] → take_rows n xs ≡ []
  unfolding take_rows
  take_rows-nil zero xs e = refl
  take_rows-nil (suc n) xs e = rw e refl

  drop_rows-nil : (n : ℕ) (xs : List A) → xs ≡ [] → drop_rows n xs ≡ []
  unfolding drop_rows
  drop_rows-nil zero xs e = e
  drop_rows-nil (suc n) xs e = rw e refl

  pub pages :
      (n m : ℕ) (xs : List A)
      → take_rows n xs ++ take_rows m (drop_rows n xs) ≡ take_rows (n + m) xs
  unfolding take_rows drop_rows
  pages zero m xs = rw (zero-add m) refl
  pages (suc n) m [] = rw (take_rows-nil m [] refl, take_rows-nil (suc n + m) [] refl) refl
  pages (suc n) m (x ∷ xs) = rw (suc-add n m) (ap (λ (l : List A). x ∷ l) (pages n m xs))

  pub drop_rows-drop : (n k : ℕ) (xs : List A) → drop_rows (k + n) xs ≡ drop_rows n (drop_rows k xs)
  unfolding drop_rows
  drop_rows-drop n zero xs = rw (zero-add n) refl
  drop_rows-drop n (suc k) [] = rw (drop_rows-nil n [] refl, drop_rows-nil (suc k + n) [] refl) refl
  drop_rows-drop n (suc k) (x ∷ xs) = rw (suc-add k n) (drop_rows-drop n k xs)

  pub take_rows-take : (n : ℕ) (xs : List A) → take_rows n (take_rows (n + 1) xs) ≡ take_rows n xs
  unfolding take_rows
  take_rows-take zero xs = refl
  take_rows-take (suc n) [] = rw (suc-add n 1) refl
  take_rows-take (suc n) (x ∷ xs) =
      rw (suc-add n 1) (ap (λ (l : List A). x ∷ l) (take_rows-take n xs))

  pub take_rows-length : (xs : List A) → take_rows (length xs) xs ≡ xs
  unfolding take_rows
  take_rows-length [] = refl
  take_rows-length (x ∷ xs) = ap (λ (l : List A). x ∷ l) (take_rows-length xs)

  -- the row beyond the page is there where the list is longer
  pub length-take_more :
      (n : ℕ) (xs : List A) → ltb n (length (take_rows (n + 1) xs)) ≡ ltb n (length xs)
  unfolding take_rows
  length-take_more zero [] = refl
  length-take_more zero (x ∷ xs) = ground arith
  length-take_more (suc n) [] = rw (suc-add n 1) refl
  length-take_more (suc n) (x ∷ xs) = rw (suc-add n 1) (ground (arith, length-take_more n xs))

  pub length-drop :
      (n k : ℕ) (xs : List A) → ltb n (length (drop_rows k xs)) ≡ ltb (k + n) (length xs)
  unfolding drop_rows
  length-drop n zero xs = rw (zero-add n) refl
  length-drop n (suc k) [] = ground arith
  length-drop n (suc k) (x ∷ xs) = rw (suc-add k n) (ground (arith, length-drop n k xs))

  insert_by-perm :
      (before : A → A → Bool) (a : A) (xs : List A) → Perm (insert_by before a xs) (a ∷ xs)
  unfolding insert_by
  insert_by-perm before a [] = Perm.refl _
  insert_by-perm before a (y ∷ ys) = elim (Bool-cases (before a y)) [
    | inl here ↦ rw here (Perm.refl _)
    | inr later ↦
        rw later (Perm.trans (Perm.cons y (insert_by-perm before a ys)) (Perm.swap a y ys))
  ]

  pub order_by-perm : (before : A → A → Bool) (xs : List A) → Perm (order_by before xs) xs
  unfolding order_by
  order_by-perm before [] = Perm.refl _
  order_by-perm before (x ∷ xs) =
      Perm.trans (insert_by-perm before x (order_by before xs))
        (Perm.cons x (order_by-perm before xs))

  length-insert_by :
      (before : A → A → Bool) (a : A) (xs : List A)
      → length (insert_by before a xs) ≡ suc (length xs)
  unfolding insert_by
  length-insert_by before a [] = refl
  length-insert_by before a (y ∷ ys) = ground (arith, length-insert_by before a ys)

  length-order_by : (before : A → A → Bool) (xs : List A) → length (order_by before xs) ≡ length xs
  unfolding order_by
  length-order_by before [] = refl
  length-order_by before (x ∷ xs) =
      length-insert_by before x (order_by before xs) ∙ ap suc (length-order_by before xs)

-- what each row shows is the entry
pub entries : (db : Db) (xs : List AuditLog) → map (λ r. r.0) (map (audit_view db) xs) ≡ xs
entries db [] = refl
entries db (x ∷ xs) = ap (λ (l : List AuditLog). x ∷ l) (entries db xs)

length-views : (db : Db) (xs : List AuditLog) → length (map (audit_view db) xs) ≡ length xs
length-views db [] = refl
length-views db (x ∷ xs) = ap suc (length-views db xs)

pub length-audit_rows : (db : Db) → length (audit_rows db) ≡ length db.audit_logs
unfolding audit_rows
length-audit_rows db = length-views db _ ∙ length-order_by _ db.audit_logs
