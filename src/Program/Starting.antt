-- ===== src/Program/Starting.antt =====
-- What the start settles: the database it opens, and the client it connects.
use h_go.Base.{◌≡◌, refl, ap, false, Option, arith, Bool-cases, inl, inr}
use h_go.Text.Trim.{trim_space, trim_space_idem, is_empty}
use h_go.Outside.{Outcome-cases, done}
use h_go.Env.{Environment}
use h_go.Env.Settings.{get_env}
use h_go.Program.{Drivers, ClientState, default_dsn, main_dsn, init_dsn, init_client, client_of}

default_not_blank : is_empty (trim_space default_dsn) ≡ false
unfolding trim_space
default_not_blank = refl

-- The dsn of main is never blank, so that InitDB opens it as it is.
init_dsn-main_dsn : (env : Environment) → init_dsn (main_dsn env) env ≡ main_dsn env
unfolding init_dsn main_dsn
init_dsn-main_dsn env =
    let v = get_env "IM_DB_DSN" env in
    ground (arith, ap is_empty (trim_space_idem v), default_not_blank)

module _ {D C : Type 0} (drv : Drivers D C) where
  -- Whatever the environment is by then, a later call of Client answers what the first one did, without a new connection.
  client_of_once :
      (env env' : Environment) (st st' : ClientState C) (c : Option C)
      → client_of drv env st ≡ done (st', c)
      → client_of drv env' st' ≡ done (st', c)
  unfolding client_of
  client_of_once env env' st st' c h = elim (Bool-cases st.ran) [
    | inl ran ↦ ground arith
    | inr first ↦ elim (Outcome-cases (init_client drv env)) [
      | inl (x, e) ↦ ground arith
      | inr (x, e) ↦ absurd (ground arith)
    ]
  ]
