-- ===== src/Auth/Constants.antt =====
-- src/auth/auth.constants.ts
use marketplace_api.Prelude.{ℕ, ◌*◌}

abbrev pub access_ttl_sec : ℕ
access_ttl_sec = 600

abbrev pub refresh_ttl_sec : ℕ
refresh_ttl_sec = 7 * 24 * 60 * 60

abbrev pub refresh_absolute_ttl_sec : ℕ
refresh_absolute_ttl_sec = 30 * 24 * 60 * 60

abbrev pub login_attempt_limit : ℕ
login_attempt_limit = 10

abbrev pub login_attempt_window_ms : ℕ
login_attempt_window_ms = 15 * 60 * 1000
