-- ===== src/Http/Origin.antt =====
-- `originAllowed` and `responseOrigin` (apps/api/src/server.ts), `isTrustedDesktopOrigin` and
-- `isTauriRequest` (apps/api/src/routes/types.ts): which web origins may call the server.
pub mod Echo
use Prim.Native.Char.{code}
use Prim.Native.Nat.{ℕ}
use Prim.Native.String.{String, [], ◌∷◌}
use mathlib.Core.Bool.{Bool, true, false, not, ◌&&◌, ◌||◌}
use mathlib.Core.List.{List}
use mathlib.Core.Option.{Option, none, some}
use text.Mathlib.Text.{◌==◌}
use laap.Base.{leb, nat_eq, if◌then◌else◌}

-- `nodeEnv === 'production'`, the entries of `allowedOrigin` split at commas and trimmed, of which
-- there is at least one, and `toLowerCase()`.
pub record Origins : Type 0 where
  pub production : Bool
  pub first_allowed : String
  pub more_allowed : List String
  pub to_lower : String → String

abbrev pub is_in : String → List String → Bool
is_in t List.[] = false
is_in t (List.◌∷◌ x xs) = t == x || is_in t xs

-- what follows a prefix
abbrev strip : String → String → Option String
strip [] t = some t
strip (c ∷ p) [] = none
strip (c ∷ p) (d ∷ t) = let rest = strip p t in if nat_eq (code c) (code d) then rest else none

abbrev is_digit : ℕ → Bool
is_digit c = leb 48 c && leb c 57

abbrev all_digits : String → Bool
all_digits [] = true
all_digits (c ∷ s) = is_digit (code c) && all_digits s

-- (:\d+)?$
abbrev is_port : String → Bool
is_port [] = true
is_port (c ∷ s) = nat_eq (code c) 58 && (not (s == "") && all_digits s)

abbrev ends_as_port : Option String → Bool
ends_as_port none = false
ends_as_port (some t) = is_port t

-- /^(https?:\/\/)(localhost|127\.0\.0\.1)(:\d+)?$/
pub is_loopback : String → Bool
is_loopback t =
    ends_as_port (strip "http://localhost" t)
    || (ends_as_port (strip "https://localhost" t)
        || (ends_as_port (strip "http://127.0.0.1" t)
            || ends_as_port (strip "https://127.0.0.1" t)))

-- `trustedDesktopOrigins`
abbrev pub trusted_desktop_origins : List String
trusted_desktop_origins =
    List.◌∷◌ "tauri://localhost"
      (List.◌∷◌ "https://tauri.localhost" (List.◌∷◌ "http://tauri.localhost" List.[]))

pub is_trusted_desktop_origin : Origins → String → Bool
is_trusted_desktop_origin o origin =
    is_in (o.to_lower origin) trusted_desktop_origins
    || not o.production && o.to_lower origin == "http://localhost:1420"

-- `String(request.headers.origin ?? '').toLowerCase()`
pub is_tauri_request : Origins → Option String → Bool
is_tauri_request o none = is_trusted_desktop_origin o (o.to_lower "")
is_tauri_request o (some origin) = is_trusted_desktop_origin o (o.to_lower origin)

-- the origin is not a loopback address in production, and is configured or the desktop's
pub is_accepted : Origins → String → Bool
is_accepted o origin =
    not (o.production && is_loopback (o.to_lower origin))
    && (is_in origin (List.◌∷◌ o.first_allowed o.more_allowed)
        || is_trusted_desktop_origin o (o.to_lower origin))

-- `!origin` holds of an empty header too
pub origin_allowed : Origins → Option String → Bool
origin_allowed o none = true
origin_allowed o (some origin) = origin == "" || is_accepted o origin

-- `request.headers.origin && originAllowed(request, runtime)`
pub response_origin : Origins → Option String → String
response_origin o none = o.first_allowed
response_origin o (some origin) =
    if not (origin == "") && origin_allowed o (some origin) then origin else o.first_allowed
