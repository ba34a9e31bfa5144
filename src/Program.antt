-- ===== src/Program.antt =====
-- How the program starts: main.go, internal/storage/db.go, the client of internal/cache/redis.go and
-- internal/server/start.go.
pub mod Starting
mod Tests
use h_go.Base.{
  ℕ, String, Bool, true, false, not, Option, none, some, List, [], ◌∷◌, cat, str_eq, if◌then◌else◌,
}
use h_go.Text.Trim.{trim_space, is_empty}
use h_go.Text.Decimal.{show}
use h_go.Storage.{Database, Redis}
use h_go.Outside.{Outcome, done, fails}
use h_go.Env.{Environment, load_env_files_if_unset}
use h_go.Env.Settings.{get_env, main_worker}
use h_go.Server.{Server, new_server, start}

-- The models that AutoMigrate names; the rows of the last two are never read or written.
pub data Model : Type 0 where
  user message message_recipient room group_member : Model

pub record RoomRow : Type 0 where
  pub id : ℕ
  pub room_id : String
  pub name : String
  pub owner_id : String
  pub create_time : ℕ

pub record GroupMemberRow : Type 0 where
  pub id : ℕ
  pub room_id : String
  pub user_id : String
  pub role : ℕ
  pub join_time : ℕ

-- What the start asks of gorm, of the Redis client and of the package net; an error is a text, `none` for nil.
pub record Drivers (D C : Type 0) : Type 0 where
  -- `gorm.Open(mysql.Open(dsn), …)`
  pub open_db : String → Outcome D
  -- `DB.AutoMigrate(…)`
  pub migrate : List Model → D → D × Option String
  -- `redis.NewClient(&redis.Options{Addr: addr})`
  pub new_client : String → C
  -- `c.Ping(ctx).Err()`
  pub ping : C → Option String
  -- `net.Listen("tcp", address)`
  pub listen : String → Option String

abbrev pub default_dsn : String
default_dsn = "root:secret@tcp(127.0.0.1:3306)/goim?charset=utf8mb4&parseTime=True&loc=Local"

-- The dsn that main passes on.
unfoldable pub main_dsn : Environment → String
unfolding get_env
main_dsn env =
    let dsn = trim_space (get_env "IM_DB_DSN" env) in if is_empty dsn then default_dsn else dsn

-- The driver that InitDB settles on; nothing reads it afterwards.
unfoldable pub driver : Environment → String
unfolding get_env
driver env =
    let named = trim_space (get_env "IM_DB_DRIVER" env) in
    let chosen = if is_empty named then "mysql" else named in
    if not (str_eq chosen "mysql") then "mysql" else chosen

-- The dsn that InitDB opens.
unfoldable pub init_dsn : String → Environment → String
unfolding get_env
init_dsn dsn env =
    let given = if is_empty (trim_space dsn) then trim_space (get_env "IM_DB_DSN" env) else dsn in
    if is_empty given then default_dsn else given

-- The value of `client`, and whether `once` has run.
pub record ClientState (C : Type 0) : Type 0 where
  pub ran : Bool
  pub client : Option C

abbrev pub no_client : {C : Type 0} → ClientState C
no_client = record { ran = false; client = none }

-- How main ends or goes on: log.Fatalf with its text, a return without a listener, or the accept loop.
pub data Launch {ℓ} (A : Type ℓ) : Type ℓ where
  fatal : String → Launch A
  stopped : Launch A
  running : A → Launch A

abbrev pub address : String → ℕ → String
address ip port = cat ip (cat ":" (show port))

module _ {D C : Type 0} (drv : Drivers D C) where
  -- AutoMigrate
  unfoldable pub auto_migrate : D → D × Option String
  auto_migrate db = drv.migrate (user ∷ message ∷ message_recipient ∷ room ∷ group_member ∷ []) db

  -- InitDB: the database, or the error
  unfoldable pub init_db : String → Environment → Outcome D
  unfolding init_dsn auto_migrate
  init_db dsn env = elim (drv.open_db (init_dsn dsn env)) [
    | fails e ↦ fails e
    | done db ↦ (let (db', e) = auto_migrate db in elim e [ none ↦ done db' | some x ↦ fails x ])
  ]

  -- initClient; `fails` is log.Fatalf
  unfoldable pub init_client : Environment → Outcome (Option C)
  unfolding get_env
  init_client env =
      let addr = trim_space (get_env "IM_REDIS_ADDR" env) in
      if is_empty addr
      then done none
      else (let c = drv.new_client addr in
          elim (drv.ping c) [
            | some e ↦ fails (cat "redis connection failed (" (cat addr (cat "): " e)))
            | none ↦ done (some c)
          ])

  -- Client
  unfoldable pub client_of : Environment → ClientState C → Outcome (ClientState C × Option C)
  unfolding init_client
  client_of env st = if st.ran then done (st, st.client) else elim (init_client env) [
    | fails e ↦ fails e
    | done c ↦ done (record { ran = true; client = c }, c)
  ]

  -- main and Start, up to the accept loop: the lines of `.env.local`, the time, and the environment. The first call of
  -- Client is the one of RecoverPendingDeliveries. The goroutines of the worker begin just before it; the model has
  -- them take nothing from the channel until it is done.
  unfoldable pub main :
      {Conn : Type 0}
      → Database D
      → Redis C
      → List String
      → ℕ
      → Environment
      → Launch (Server D C Conn)
  unfolding main_dsn init_db client_of
  main sql redis file now env =
      let env' = load_env_files_if_unset (file ∷ []) env in
      elim (init_db (main_dsn env') env') [
        | fails e ↦ fatal (cat "init db failed: " e)
        | done db ↦ elim (drv.listen (address "127.0.0.1" 8888)) [
          | some e ↦ stopped
          | none ↦ elim (client_of env' no_client) [
            | fails e ↦ fatal e
            | done (st, c) ↦
                running (start sql redis (new_server env' now true db c (main_worker env')))
          ]
        ]
      ]
