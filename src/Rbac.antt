-- ===== src/Rbac.antt =====
-- internal/rbac/service.go and repository.go: roles, permissions, who has them, and the cache in Redis;
-- AuthorizeRole and AuthorizePermission of internal/middleware/auth.go.
pub mod Store
pub mod Access
pub mod Roles
pub mod Coherence
pub mod Changes
