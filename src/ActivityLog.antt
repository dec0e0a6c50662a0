-- ===== src/ActivityLog.antt =====
-- internal/log: the cleanup of expired entries (cleanup.go) and the detection of anomalies (anomaly.go).
pub mod Cleanup
pub mod Anomaly
