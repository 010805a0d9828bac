-- ===== src/Lib.antt =====
-- LAAP: the lease server of a pool of game accounts. An operator on a registered device leases an
-- account that is assigned to them, keeps the lease by heartbeats and releases it; administrators
-- manage users, accounts, devices and assignments. Every change is written to an audit log.
--
-- The parts, each with the code that it models:
--   Types, Schema     the enums and the tables: packages/types/src/index.ts and `schemaSql` of
--                     apps/api/src/db/database.ts
--   Exec              what a method does: it returns or throws, and leaves a database;
--                     `transaction` and `transactionSync` of apps/api/src/db/database.ts
--   Db                the statements on a table, each refused as a whole by the constraints
--   Audit             `addAudit` of apps/api/src/services/sqlite/admin.service.ts
--   Leases            apps/api/src/services/sqlite/lease.service.ts
--   Devices           apps/api/src/services/sqlite/device.service.ts
--   Accounts          apps/api/src/services/sqlite/account.service.ts
--   Users             apps/api/src/services/sqlite/auth.service.ts
--   Assignments       addAssignment, revokeAssignment of apps/api/src/services/sqlite/admin.service.ts
--   SecretBox         apps/api/src/services/secret-box.ts
--   Service           apps/api/src/services/laap-service.ts: the calls as events of a history
--   Statements        what every statement keeps, every method keeps: the rules behind the invariants
--   Validation        packages/validation/src/index.ts
--   Http              apps/api/src/http (RateLimit, Context, Cookies), apps/api/src/routes (Leases,
--                     Devices, Accounts, Admin, Auth), apps/api/src/router.ts and the loop of
--                     apps/api/src/server.ts (Router), and its allowed origins (Origin)
--   Views             the queries of the dashboard, in the services of apps/api/src/services/sqlite
--   Desktop           the application, in apps/desktop/src: Action (what an async function does),
--                     Auth (features/auth/useAuth.ts, lib/api.ts), CloudLease
--                     (features/team-vault/useCloudAccounts.ts), RiotOperations
--                     (context/RiotOperations.tsx), Roster
--                     (features/personal-roster/useLocalAccounts.ts), Sorting (lib/sorting.ts) and Updates
--                     (hooks/useUpdateChecker.ts)
-- A method `fooBar` is the function `foo_bar`. The services share one database and call the audit
-- log; the lease, device, user and assignment services all end sessions, with `close_session`. Base
-- holds the helpers, Text those on texts, Samples a small database for tests.
--
-- How it is modelled. A database is the record `Db` of its tables; a method is a function from a
-- database to an outcome, `ok` or `err`, each with the database that it leaves. Times are
-- milliseconds; the texts that `toISOString` writes are ordered as their times, and one synchronous
-- call reads one time. The text of an expiry is stored as it was given: `Expiry` has the time that it
-- means, and the first time whose text does not sort before it, which the statements that compare
-- texts go by. A `Moment` supplies the time and the `randomUUID`s. A method that awaits is
-- split at the wait (`check_new_user` and `commit_new_user`), so that other calls may come between.
-- The columns `vault_secret_id` and `metadata_json` of sessions, which no method reads, are left
-- out; the primary key of the log, whose keys are fresh random ones, is not checked. Foreign keys
-- are enforced by SQLite only while the pragma is on: the flag `foreign_keys` of `Db` says whether a
-- delete cascades, and an insert is not checked against it. bcrypt, the case mapping of texts, the
-- UUID test and AES-256-GCM are parameters. Loops run over the rows that a SELECT has returned, so
-- there is no fuel.
--
-- A request of the HTTP layer is its method, its path in parts, its tokens and its body as a stream
-- of chunk sizes with the JSON document in them; zod's tests on one text, `jwtVerify`, `Number`,
-- Ed25519 and base64 are fields of `Runtime`. The token of its cookie is `read_cookie` of the
-- header. A default inside an optional field applies, as zod 4 documents. The server handles one
-- request at a time against the database; a Map is a function of its keys.
--
-- A hook of the desktop application is a record of its state and refs; the answers of the API, of
-- the Tauri commands and of the user are fields of a `World`, and may depend on the calls before.
-- The operations of one hook are taken one at a time, except in Roster, whose events are the two
-- halves of each operation around its wait, in any order, and for the session checks of Auth, which
-- are two events, before the request and from its answer on. The lease hook takes `run` of the Riot
-- operations as a `Gate`. The loop that tracks a start has fuel for 121 rounds, one a second, and
-- never needs more when the clock reads two minutes by then. A session id is not empty, the numbers
-- of a version are exact, and no date of a profile is before 1970.
--
-- Not modelled: the file of the database, the Supabase services, the server's start-up and headers,
-- the tones and relative times of the dashboard (a reply names its query and the scope), the
-- signing of access tokens, the views of the console and of the desktop application, and its
-- launcher, tray and device hooks.
pub mod Base
pub mod Text
pub mod Types
pub mod Schema
pub mod Exec
pub mod Db
pub mod Audit
pub mod Leases
pub mod Validation
mod Samples
pub mod Devices
pub mod Accounts
pub mod Users
pub mod Assignments
pub mod SecretBox
pub mod Http
pub mod Views
pub mod Service
pub mod Statements
pub mod Desktop
