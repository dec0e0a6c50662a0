-- ===== src/BruteForce/Config/Resolved.antt =====
-- What every resolved configuration has.
use graaa_golang_auth_api.Common.{ℕ, ◌<◌, Option, none, some, List, [], ◌∷◌, Text, length, arith}
use graaa_golang_auth_api.BruteForce.Config.{
  Application, resolve_config, parse_durations, override_durations, or_default, defaults,
}

or_default-nonempty : (xs ds : List ℕ) → 0 < length ds → 0 < length (or_default xs ds)
or_default-nonempty [] ds h = h
or_default-nonempty (x ∷ xs) ds h = omega arith

override_durations-nonempty :
    (parse_duration : Text → Option ℕ) (o : Option Text) (ds : List ℕ)
    → 0 < length ds
    → 0 < length (override_durations parse_duration o ds)
override_durations-nonempty parse_duration none ds h = h
override_durations-nonempty parse_duration (some s) ds h =
    or_default-nonempty (parse_durations parse_duration s) ds h

-- Whatever the columns of the application hold and whatever durations parse, the configuration
-- that is resolved has at least one lockout duration.
pub resolve_config-nonempty :
    (parse_duration : Text → Option ℕ) (app : Option Application)
    → 0 < length (resolve_config parse_duration app).lockout_durations
unfolding resolve_config
resolve_config-nonempty parse_duration none = omega arith
resolve_config-nonempty parse_duration (some app) =
    override_durations-nonempty parse_duration app.bf_lockout_durations defaults.lockout_durations
      (omega arith)
