-- ===== src/Store/Users.antt =====
-- internal/store/store.go, users.go, permissions.go, onboarding.go: users, sessions and invite codes.
pub mod Passwords
pub mod Sessions
pub mod Invites
pub mod Operations
pub mod Deletion
pub mod Requests
pub mod Admins
pub mod Limits
pub mod Revocation
pub mod Usable
pub mod Forgotten
pub mod Login
pub mod Hashes
mod Tests
