-- ===== src/Env/Settings.antt =====
-- The settings that are read from the environment: internal/server/bootstrap.go, internal/cache/redis.go and
-- main.go.
use h_go.Base.{
  ℕ, ◌*◌, String, Option, none, some, if◌then◌else◌, get, ℤ, pos, positive_or, to_int64, second,
}
use h_go.Text.Trim.{trim_space, is_empty}
use h_go.Text.Decimal.{atoi}
use h_go.Worker.{Worker, new_worker}
use h_go.Env.{Environment}

-- os.Getenv
unfoldable pub get_env : String → Environment → String
get_env key env = elim (get key env) [ none ↦ "" | some v ↦ v ]

abbrev or_int : ℕ → Option ℤ → ℕ
or_int d none = d
or_int d (some z) = positive_or z d

-- `if n, err := strconv.Atoi(v); err == nil && n > 0`, with a default
unfoldable pub positive_setting : ℕ → String → ℕ
unfolding atoi
positive_setting d v = or_int d (atoi v)

-- `time.Duration(n) * time.Second`, an int64
unfoldable pub seconds : ℕ → ℤ
unfolding to_int64
seconds n = to_int64 (n * second)

-- NewServer: rateWindow and rateLimit; a blank value is no number
unfoldable pub rate_window : Environment → ℤ
unfolding positive_setting seconds get_env
rate_window env = seconds (positive_setting 60 (trim_space (get_env "IM_CONN_RATE_WINDOW_SEC" env)))

unfoldable pub rate_limit : Environment → ℕ
unfolding positive_setting get_env
rate_limit env = positive_setting 30 (trim_space (get_env "IM_CONN_RATE_LIMIT" env))

-- OnlineTTL
unfoldable pub online_ttl : Environment → ℤ
unfolding positive_setting seconds get_env
online_ttl env = seconds (positive_setting 60 (trim_space (get_env "IM_USER_ONLINE_TTL_SEC" env)))

-- GatewayID; os.Hostname is an argument, `none` where it fails
unfoldable pub gateway_id : Option String → Environment → String
unfolding get_env
gateway_id hostname env =
    let id = trim_space (get_env "IM_GATEWAY_ID" env) in
    if is_empty id then elim hostname [ some h ↦ h | none ↦ "unknown" ] else id

-- The worker that main makes; its two settings are not trimmed.
unfoldable pub main_worker : Environment → Worker
unfolding positive_setting seconds get_env
main_worker env =
    new_worker (pos (positive_setting 5 (get_env "IM_MAX_RETRY" env)))
      (seconds (positive_setting 2 (get_env "IM_RETRY_DELAY_SEC" env)))
