-- ===== src/Tests/Logs.antt =====
-- The activity log at concrete inputs.
use graaa_golang_auth_api.Common.{◌≡◌, refl, true, false, none, some, [], ◌∷◌, codes, arith}
use graaa_golang_auth_api.ActivityLog.Cleanup.{
  ActivityLog, is_expired, delete_expired_logs, completed,
}
use graaa_golang_auth_api.ActivityLog.Cleanup.Completion.{delete_expired_logs-completes}
use graaa_golang_auth_api.ActivityLog.Anomaly.{
  UserPatterns, is_unusual_time, is_unusual_time_on_clock,
}

abbrev old : ActivityLog
old = record { id = codes "1"; user_id = codes "u"; expires_at = some 5 }

abbrev lasting : ActivityLog
lasting = record { id = codes "2"; user_id = codes "u"; expires_at = none }

delete_expired_logs-completes_example :
    delete_expired_logs true 3 (λ i. true) 0 1 9 0 (old ∷ lasting ∷ old ∷ [])
    ≡ (completed 2, lasting ∷ [])
unfolding is_expired
delete_expired_logs-completes_example =
    delete_expired_logs-completes true 3 (λ i. true) 0 1 9 0 (old ∷ lasting ∷ old ∷ []) (λ i. refl)
      (omega arith) (omega arith)

-- A user who is there at 23 and at 1.
abbrev nightly : UserPatterns
nightly = record {
  is_first_access = false;
  known_ip_hashes = [];
  known_user_agent_hashes = [];
  known_countries = [];
  typical_access_hours = 23 ∷ 1 ∷ [];
}

is_unusual_time_on_clock_example : is_unusual_time 4 nightly ≡ true
is_unusual_time_on_clock_example =
    is_unusual_time_on_clock 4 nightly (omega arith) (omega arith, (omega arith, tt))
