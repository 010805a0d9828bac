-- ===== src/Http/RateLimit/Window.antt =====
-- What the rate limiter promises within a window.
use laap.Base.{
  All, Bool-cases, List, Option, Option-cases, String, [], arith, eq_refl, false, if◌then◌else◌,
  inl, inr, leb, none, refl, some, suc, true, true-ne-false, ℕ, ◌+◌, ◌-◌, ◌/◌, ◌<◌, ◌∷◌, ◌≡◌, ◌≤◌,
}
use laap.Http.RateLimit.{
  Entries, Entry, Limiter, Verdict, allow, allow_entry, ceil_seconds, in_window, set, sweep, yes,
}
use laap.Samples.{start}

-- how many of the attempts of one key are allowed, at these times
pub admitted : Limiter → String → Entries → List ℕ → ℕ
admitted l key entries [] = 0
admitted l key entries (now ∷ times) =
    let (verdict, next) = allow l now key entries in
    let rest = admitted l key next times in if verdict.allowed then suc rest else rest

current :
    (now : ℕ) (e : Entry) (entry : Option Entry)
    → entry ≡ some e
    → now < e.reset_at
    → in_window now entry ≡ some e
current now e entry found within =
    let live : leb e.reset_at now ≡ false = ground arith in rw (found, live) refl

abbrev refusal : ℕ → Entry → Verdict
refusal now e = record { allowed = false; retry_after_seconds = ceil_seconds (e.reset_at - now) }

allow-full :
    (l : Limiter) (key : String) (entries : Entries) (e : Entry) (now : ℕ)
    → entries key ≡ some e
    → now < e.reset_at
    → leb l.limit e.count ≡ true
    → allow l now key entries ≡ (refusal now e, entries)
unfolding allow allow_entry
allow-full l key entries e now found within full =
    rw (current now e (entries key) found within, full) refl

allow-free :
    (l : Limiter) (key : String) (entries : Entries) (e : Entry) (now : ℕ)
    → entries key ≡ some e
    → now < e.reset_at
    → leb l.limit e.count ≡ false
    → allow l now key entries ≡ (yes, set key (record e { count = e.count + 1 }) entries)
unfolding allow allow_entry
allow-free l key entries e now found within free =
    rw (current now e (entries key) found within, free) refl

-- The entry of the key leaves the attempts that its count has not used.
admitted-window :
    (l : Limiter) (key : String) (entries : Entries) (e : Entry) (times : List ℕ)
    → entries key ≡ some e
    → All (λ t. t < e.reset_at) times
    → e.count ≤ l.limit
    → admitted l key entries times + e.count ≤ l.limit
unfolding admitted
admitted-window l key entries e [] found within under = omega (arith, under)
admitted-window l key entries e (now ∷ times) found within under =
    elim (Bool-cases (leb l.limit e.count)) [
      | inl full ↦
          let rest = admitted-window l key entries e times found within.1 under in
          rw (allow-full l key entries e now found within.0 full) rest
      | inr free ↦
          let e' : Entry = record e { count = e.count + 1 } in
          let rest =
            admitted-window l key (set key e' entries) e' times (rw (eq_refl key) refl) within.1
              (ground arith) in
          rw (allow-free l key entries e now found within.0 free) (omega (arith, rest))
    ]

-- From an attempt that opens a window on, at most `limit` attempts of the key are allowed at times
-- before the window's end, in any order of times, if the limit is not zero.
pub admitted-limit :
    (l : Limiter) (key : String) (entries : Entries) (start : ℕ) (times : List ℕ)
    → in_window start (entries key) ≡ none
    → All (λ t. t < start + l.window_ms) times
    → 1 ≤ l.limit
    → admitted l key entries (start ∷ times) ≤ l.limit
unfolding admitted allow allow_entry
admitted-limit l key entries start times idle within positive =
    let e : Entry = record { count = 1; reset_at = start + l.window_ms } in
    let rest =
      admitted-window l key (set key e entries) e times (rw (eq_refl key) refl) within positive in
    rw idle (omega (arith, rest))

-- Sweeping changes no verdict: at the time of the sweep or later, every key is allowed or refused as
-- it would have been without it, with the same wait.
pub sweep-allow :
    (l : Limiter) (key : String) (entries : Entries) (swept now : ℕ)
    → swept ≤ now
    → (allow l now key (sweep swept entries)).0 ≡ (allow l now key entries).0
unfolding allow allow_entry sweep
sweep-allow l key entries swept now later = elim (Option-cases (entries key)) [
  | inl missing ↦ rw missing refl
  | inr (e, found) ↦ elim (Bool-cases (leb e.reset_at swept)) [
    | inl over ↦ let gone : leb e.reset_at now ≡ true = ground arith in rw (found, over, gone) refl
    | inr live ↦ rw (found, live) (ground arith)
  ]
]

-- A refused attempt says to wait a whole number of seconds, which is positive and not longer than
-- the window rounded up, and changes no entry.
allow-refused :
    (l : Limiter) (key : String) (entries : Entries) (e : Entry) (now : ℕ)
    → entries key ≡ some e
    → e.reset_at ≤ now + l.window_ms
    → (allow l now key entries).0.allowed ≡ false
    → (1 ≤ (allow l now key entries).0.retry_after_seconds)
      × ((allow l now key entries).0.retry_after_seconds ≤ (l.window_ms + 999) / 1000)
      × ((allow l now key entries).1 ≡ entries)
unfolding allow allow_entry
allow-refused l key entries e now found bounded refused = elim (Bool-cases (leb e.reset_at now)) [
  | inl over ↦ absurd (true-ne-false (rw (found, over) refl) refused)
  | inr live ↦ elim (Bool-cases (leb l.limit e.count)) [
    | inl full ↦
        let wait : now < e.reset_at = ground arith in
        rw (found, live, full) (omega (arith, wait), omega (arith, bounded), refl)
    | inr free ↦ absurd (true-ne-false (rw (found, live, free) refl) refused)
  ]
]
