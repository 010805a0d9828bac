-- ===== src/Views/Audit.antt =====
-- The page of the audit log that GET /api/audit answers with: apps/api/src/routes/admin.routes.ts.
use laap.Base.{Bool, List, String, length, ltb, ℕ, ◌+◌}
use laap.Schema.{AuditLog, Db}
use laap.Views.{list_audit, take_rows}

pub record AuditPage : Type 0 where
  pub audit : List (AuditLog × String)
  pub has_more : Bool

-- one row more than the page is read, to see whether there are more
unfoldable pub audit_page : ℕ → ℕ → Db → AuditPage
audit_page limit offset db =
    let page = list_audit (limit + 1) offset db in
    record { audit = take_rows limit page; has_more = ltb limit (length page) }
