-- ===== src/Auth.antt =====
-- Signing in: app/auth, with tokens that it signs, sessions and revoked tokens in Redis, users and
-- their social accounts in the database, and Google as the identity provider.
pub mod Entities
pub mod Services
pub mod Realm
pub mod Cache
pub mod Tokens
pub mod Google
pub mod Login
pub mod Create
pub mod Requests
pub mod Keys
pub mod Revocation
pub mod SingleUse
pub mod Frames
pub mod SignOut
pub mod States
pub mod Identity
pub mod Renewed
pub mod Renewal
pub mod Unlisted
pub mod Gate
pub mod Accounts
