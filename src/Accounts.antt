-- ===== src/Accounts.antt =====
-- Accounts, sign-in, invites and contact hand-offs: internal/db/queries_auth.go,
-- internal/handlers/auth.go, internal/handlers/middleware.go and their siblings.
pub mod Platform
pub mod Text
pub mod Users
pub mod Sessions
pub mod Identities
pub mod OidcState
pub mod Emails
