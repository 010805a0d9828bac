-- ===== src/Http/RateLimit.antt =====
-- FixedWindowRateLimiter (apps/api/src/http/rate-limit.ts). A JavaScript Map is the function from its
-- keys; times are milliseconds.
pub mod Window
use laap.Base.{
  Bool, Option, String, false, if◌then◌else◌, leb, none, some, true, ℕ, ◌+◌, ◌-◌, ◌/◌, ◌==◌,
}

pub record Entry : Type 0 where
  pub count : ℕ
  pub reset_at : ℕ

abbrev pub Entries : Type 0
Entries = String → Option Entry

pub record Limiter : Type 0 where
  pub limit : ℕ
  pub window_ms : ℕ

pub record Verdict : Type 0 where
  pub allowed : Bool
  pub retry_after_seconds : ℕ

abbrev pub set : String → Entry → Entries → Entries
set key entry entries k = if k == key then some entry else entries k

-- Math.ceil(ms / 1000)
abbrev pub ceil_seconds : ℕ → ℕ
ceil_seconds ms = (ms + 999) / 1000

abbrev pub yes : Verdict
yes = record { allowed = true; retry_after_seconds = 0 }

-- `!current || current.resetAt <= now`
abbrev pub in_window : ℕ → Option Entry → Option Entry
in_window now none = none
in_window now (some e) = if leb e.reset_at now then none else some e

unfoldable pub allow_entry : Limiter → ℕ → String → Entries → Option Entry → Verdict × Entries
allow_entry l now key entries none =
    (yes, set key (record { count = 1; reset_at = now + l.window_ms }) entries)
allow_entry l now key entries (some e) =
    if leb l.limit e.count
    then (
      record { allowed = false; retry_after_seconds = ceil_seconds (e.reset_at - now) },
      entries,
    )
    else (yes, set key (record e { count = e.count + 1 }) entries)

unfoldable pub allow : Limiter → ℕ → String → Entries → Verdict × Entries
allow l now key entries = allow_entry l now key entries (in_window now (entries key))

pub reset : String → Entries → Entries
reset key entries k = if k == key then none else entries k

-- the entries whose window is over are deleted
pub sweep : ℕ → Entries → Entries
sweep now entries k = in_window now (entries k)
