-- ===== src/Http/Origin/Echo.antt =====
-- What the server sends back in Access-Control-Allow-Origin.
use mathlib.Core.List.{Mem}
use laap.Base.{List, String, [], false, ◌∷◌, ◌≡◌, ◌⊎◌}
use laap.Http.Origin.{Origins}

-- the origin is configured, or the desktop application's, or its development server's
abbrev pub Known : Origins → String → Type 0
Known o origin =
    Mem origin (o.first_allowed ∷ o.more_allowed)
    ⊎ (Mem (o.to_lower (o.to_lower origin))
          ("tauri://localhost" ∷ "https://tauri.localhost" ∷ "http://tauri.localhost" ∷ [])
        ⊎ ((o.production ≡ false) × (o.to_lower (o.to_lower origin) ≡ "http://localhost:1420")))
