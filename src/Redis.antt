-- ===== src/Redis.antt =====
-- internal/redis/redis.go: the server's interface, a sample server, and the program's operations.
pub mod Interface
pub mod Sample
pub mod Exec
pub mod Keeps
pub mod Keys
pub mod Sessions
pub mod Tokens
pub mod Counters
pub mod Slots
pub mod Admin
