-- ===== src/Desktop.antt =====
-- The desktop application (apps/desktop/src): the parts with a state of their own, as actions that
-- return or throw, and its pure helpers.
pub mod Action
pub mod Auth
pub mod CloudLease
pub mod RiotOperations
pub mod Roster
pub mod Sorting
pub mod Updates
