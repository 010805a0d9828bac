-- ===== src/Http.antt =====
-- The HTTP layer of the server: apps/api/src/http, apps/api/src/routes and apps/api/src/router.ts.
pub mod RateLimit
pub mod Context
pub mod Cookies
pub mod Devices
pub mod Leases
pub mod Accounts
pub mod Admin
pub mod Auth
pub mod Confined
pub mod Router
pub mod Origin
mod Tests
