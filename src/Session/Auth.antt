-- ===== src/Session/Auth.antt =====
-- internal/session/auth.go: registration and login.
pub mod Checks
pub mod Keeping
pub mod Standing
pub mod Roundtrip
pub mod Refusal
pub mod Lookups
use h_go.Base.{
  ℕ, String, Bool, true, false, ◌||◌, Option, none, some, List, [], ◌∷◌, any, str_eq, if◌then◌else◌,
  Dict, keys, cat,
}
use h_go.Text.Trim.{trim_space, is_empty}
use h_go.Text.Find.{has_any}
use h_go.Storage.{UserRow, Answer, found, not_found, failed, Database, Redis}
use h_go.Store.{Store, Error}
use h_go.Logic.{Clock, with_store}
use h_go.Dao.{create_user, get_user_by_name, update_user_status}
use h_go.Outside.{Outside, Outcome, done, fails}
use h_go.Server.{Server, with_logic, list_online_users}
use h_go.Session.{Session, Presence, with_user, with_server, online}

-- `&storage.User{UserName: username, PasswordHash: hash}`
abbrev pub new_row : String → String → UserRow
new_row username hash = record {
  id = 0;
  user_name = username;
  password_hash = hash;
  nick_name = "";
  avatar_url = "";
  status = 0;
  create_time = 0;
  update_time = 0;
}

-- The loop over ListOnlineUsers.
unfoldable pub has_name : String → List (String × String) → Bool
has_name username [] = false
has_name username ((name, addr) ∷ rest) = str_eq name username || has_name username rest

module _ {D C Conn : Type 0} where
  abbrev pub store_of : Session D C Conn → Store D C
  store_of s = s.server.logic.store

  abbrev pub with_store_of : Session D C Conn → Store D C → Session D C Conn
  with_store_of s st = with_server s (with_logic s.server (with_store s.server.logic st))

  unfoldable pub is_online_name : String → Session D C Conn → Bool
  unfolding has_name list_online_users
  is_online_name username s = has_name username (list_online_users s.server.online_map)

module _ {D C Conn : Type 0} (sql : Database D) (redis : Redis C) (o : Outside) (p : Presence) where
  -- What a registration and a login end with.
  unfoldable pub enter : Clock → String → Session D C Conn → Session D C Conn
  enter clock username s =
      online sql redis o p clock
        (with_user s (record s.user { name = username; authenticated = true }))

  -- The part of Register after the name was found to be free.
  unfoldable pub register_new :
      Clock → ℕ → String → String → Session D C Conn → Session D C Conn × Error
  unfolding enter
  register_new clock salt username password s = elim (o.hash_password salt password) [
    | fails x ↦ (s, some (cat "密码加密失败: " x))
    | done hash ↦
        (let (st, e) = create_user sql redis (new_row username hash) (store_of s) in
          let s' = with_store_of s st in
          elim e [
            | some x ↦ (s', some (cat "创建用户失败: " x))
            | none ↦ (enter clock username s', none)
          ])
  ]

  -- Register, with the randomness of the salt
  unfoldable pub register :
      Clock → ℕ → String → String → Session D C Conn → Session D C Conn × Error
  unfolding register_new
  register clock salt name password s =
      let username = trim_space name in
      if is_empty username || has_any (b' ' ∷ b'\t' ∷ b'\n' ∷ b'\r' ∷ b'|' ∷ []) username
      then (s, some "用户名不可为空或包含空格/管道符")
      else if is_online_name username s
      then (s, some "该用户名已有人在线")
      else (let (st, su) = get_user_by_name sql redis username (store_of s) in
          let s' = with_store_of s st in
          elim su [
            | found u ↦ (s', some "用户已存在，请直接登录")
            | not_found ↦ register_new clock salt username password s'
            | failed e ↦ register_new clock salt username password s'
          ])

  -- The part of Login once the user was found.
  unfoldable pub login_as :
      Clock → String → String → UserRow → Session D C Conn → Session D C Conn × Error
  unfolding enter
  login_as clock username password su s =
      if o.matches_hash su.password_hash password
      then if is_online_name username s
        then (s, some "该用户已在其他连接登录")
        else (let s' = enter clock username s in
            (with_store_of s' (update_user_status sql redis username 1 (store_of s')).0, none))
      else (s, some "密码错误")

  -- Login
  unfoldable pub login : Clock → String → String → Session D C Conn → Session D C Conn × Error
  unfolding login_as
  login clock name password s =
      let username = trim_space name in
      if is_empty username
      then (s, some "用户名不能为空")
      else (let (st, su) = get_user_by_name sql redis username (store_of s) in
          let s' = with_store_of s st in
          elim su [
            | found u ↦ login_as clock username password u s'
            | not_found ↦ (s', some "用户不存在，请先注册")
            | failed e ↦ (s', some "用户不存在，请先注册")
          ])
