-- ===== src/Program/Tests.antt =====
-- Starts of the program, with a database and a Redis server that answer, and without.
use h_go.Base.{ℕ, String, ◌≡◌, refl, true, none, some, List, [], ◌∷◌, get, put}
use h_go.Text.Trim.{trim_space}
use h_go.Storage.Sample.{Rows, Cache, no_rows, sql, redis}
use h_go.Outside.{done, fails}
use h_go.Env.{Environment, load_env_files_if_unset, assignment}
use h_go.Env.Settings.{main_worker}
use h_go.Server.{Server, new_server, start}
use h_go.Program.{Drivers, running, fatal, stopped, main, driver}

abbrev drivers : Drivers Rows Cache
drivers = record {
  open_db = λ dsn. done no_rows;
  migrate = λ models db. (db, none);
  new_client = λ addr. [];
  ping = λ c. none;
  listen = λ address. none;
}

abbrev env_file : List String
env_file = "IM_REDIS_ADDR = 10.0.0.9:6379" ∷ "IM_MAX_RETRY=7" ∷ []

abbrev settings : Environment
settings = ("IM_REDIS_ADDR", "10.0.0.9:6379") ∷ ("IM_MAX_RETRY", "7") ∷ []

settings_loaded : load_env_files_if_unset (env_file ∷ []) [] ≡ settings
unfolding load_env_files_if_unset assignment get put
settings_loaded = refl

abbrev started : Server Rows Cache ℕ
started = start sql redis (new_server settings 5 true no_rows (some []) (main_worker settings))

runs : main drivers sql redis env_file 5 [] ≡ running started
unfolding main load_env_files_if_unset assignment get put
runs = refl

no_database :
    main (record drivers { open_db = λ dsn. fails "refused" }) {Conn = ℕ} sql redis [] 5 []
    ≡ fatal "init db failed: refused"
unfolding main load_env_files_if_unset
no_database = refl

no_redis :
    main (record drivers { ping = λ c. some "timeout" }) {Conn = ℕ} sql redis env_file 5 []
    ≡ fatal "redis connection failed (10.0.0.9:6379): timeout"
unfolding main load_env_files_if_unset assignment get put
no_redis = refl

no_port :
    main (record drivers { listen = λ a. some "in use" }) {Conn = ℕ} sql redis [] 5 [] ≡ stopped
unfolding main load_env_files_if_unset
no_port = refl

-- The driver that the settings name is not looked at.
one_driver : driver (("IM_DB_DRIVER", "postgres") ∷ []) ≡ "mysql"
unfolding driver get trim_space
one_driver = refl
