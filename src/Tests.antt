-- ===== src/Tests.antt =====
-- Concrete runs: a signer and a server that answer, and the theorems of the components on them.
pub mod SampleJwt
pub mod Sessions
pub mod Scopes
pub mod Limits
pub mod Lockouts
pub mod Policies
pub mod Provider
pub mod ProviderTokens
pub mod Webhooks
pub mod Roles
pub mod Logs
pub mod Groups
