-- ===== src/Auth.antt =====
-- Authentication and authorisation: role keys, sessions, users, gates and row scope.
pub mod Model
pub mod Keys
pub mod Sessions
pub mod Users
pub mod Audit
pub mod Gates
pub mod Admin
pub mod Assignees
pub mod Closed
mod Tests
