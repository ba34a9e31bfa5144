-- ===== src/Connection/Guard.antt =====
-- What a user who has not logged in can do.
use h_go.Base.{◌≡◌, ◌∙◌, subst, String, false, arith, Option-cases, Bool-cases, inl, inr, cat}
use h_go.Text.Trim.{trim_space, is_empty}
use h_go.Text.Find.{has_prefix}
use h_go.Text.Split.{split_cuts}
use h_go.Storage.{Database, Redis}
use h_go.Outside.{Outside, Bytes}
use h_go.Server.{mark_inbound_message}
use h_go.Session.{Session, Presence, with_server, send_msg}
use h_go.Session.Auth.{register, login, store_of}
use h_go.Session.Auth.Refusal.{
  only_storage_and_count, send_msg-server, register-IsKept, login-IsKept,
}
use h_go.Session.Auth.Lookups.{IsLookup, register-IsOut, login-IsOut}
use h_go.Connection.{
  decode_input_text, Turn, auth_register, auth_login, handle_auth_command, process_raw_line,
  three_parts, login_parts,
}

module _ {D C Conn : Type 0} (sql : Database D) (redis : Redis C) (o : Outside) (p : Presence) where
  -- The same of handleAuthCommand, which also counts the texts it sends.
  abbrev IsGuarded : Session D C Conn → Session D C Conn → Type 0
  IsGuarded s s' =
      s'.user.authenticated ≡ false → s'.server ≡ only_storage_and_count s.server s'.server

  auth_register-IsGuarded :
      (t : Turn) (msg : String) (s : Session D C Conn)
      → IsGuarded s (auth_register sql redis o p t msg s).0
  unfolding auth_register
  auth_register-IsGuarded t msg s h = elim (Option-cases (three_parts (split_cuts "|" 2 msg))) [
    | inl e ↦ ground (arith, send_msg-server "注册格式错误，正确用法：register|用户名|密码\n" s)
    | inr ((name, password), e) ↦
        (let (s', err) = register sql redis o p t.clock t.salt (trim_space name) password s in
          let kept = register-IsKept sql redis o p t.clock t.salt (trim_space name) password s in
          elim (Option-cases err) [
            | inl n ↦ ground (arith, send_msg-server (cat "注册并登录成功，欢迎：" (cat s'.user.name "\n")) s')
            | inr (x, n) ↦ ground (arith, send_msg-server (cat "注册失败：" (cat x "\n")) s')
          ])
  ]

  auth_login-IsGuarded :
      (t : Turn) (msg : String) (s : Session D C Conn)
      → IsGuarded s (auth_login sql redis o p t msg s).0
  unfolding auth_login
  auth_login-IsGuarded t msg s h =
      elim (Option-cases (login_parts (three_parts (split_cuts "|" 2 msg)))) [
        | inl e ↦ ground (arith, send_msg-server "登录格式错误，正确用法：login|用户名|密码\n" s)
        | inr ((name, password), e) ↦
            (let (s', err) = login sql redis o p t.clock (trim_space name) password s in
              let kept = login-IsKept sql redis o p t.clock (trim_space name) password s in
              elim (Option-cases err) [
                | inl n ↦
                    ground (arith, send_msg-server (cat "登录成功，欢迎回来：" (cat s'.user.name "\n")) s')
                | inr (x, n) ↦ ground (arith, send_msg-server (cat "登录失败：" (cat x "\n")) s')
              ])
      ]

  handle_auth_command-IsGuarded :
      (t : Turn) (msg : String) (s : Session D C Conn)
      → IsGuarded s (handle_auth_command sql redis o p t msg s).0
  unfolding handle_auth_command
  handle_auth_command-IsGuarded t msg s h = ground (
    arith,
    auth_register-IsGuarded t msg s,
    auth_login-IsGuarded t msg s,
    send_msg-server "请先注册或登录。注册: register|用户名|密码  登录: login|用户名|密码\n" s,
  )

  -- The same of the store.
  abbrev IsOutside : Session D C Conn → Session D C Conn → Type 0
  IsOutside s s' = s'.user.authenticated ≡ false → IsLookup sql redis (store_of s) (store_of s')

  auth_register-IsOutside :
      (t : Turn) (msg : String) (s : Session D C Conn)
      → IsOutside s (auth_register sql redis o p t msg s).0
  unfolding auth_register send_msg
  auth_register-IsOutside t msg s h = elim (Option-cases (three_parts (split_cuts "|" 2 msg))) [
    | inl e ↦ inl (ground arith)
    | inr ((name, password), e) ↦
        (let r = (register sql redis o p t.clock t.salt (trim_space name) password s).0 in
          let end = (auth_register sql redis o p t msg s).0 in
          let same : (store_of r ≡ store_of end) × (r.user.authenticated ≡ end.user.authenticated) =
            ground arith in
          subst (IsLookup sql redis (store_of s)) same.0
            (register-IsOut sql redis o p t.clock t.salt (trim_space name) password s (same.1 ∙ h)))
  ]

  auth_login-IsOutside :
      (t : Turn) (msg : String) (s : Session D C Conn)
      → IsOutside s (auth_login sql redis o p t msg s).0
  unfolding auth_login send_msg
  auth_login-IsOutside t msg s h =
      elim (Option-cases (login_parts (three_parts (split_cuts "|" 2 msg)))) [
        | inl e ↦ inl (ground arith)
        | inr ((name, password), e) ↦
            (let r = (login sql redis o p t.clock (trim_space name) password s).0 in
              let end = (auth_login sql redis o p t msg s).0 in
              let same : (store_of r ≡ store_of end)
                  × (r.user.authenticated ≡ end.user.authenticated) =
                ground arith in
              subst (IsLookup sql redis (store_of s)) same.0
                (login-IsOut sql redis o p t.clock (trim_space name) password s (same.1 ∙ h)))
      ]

  handle_auth_command-IsOutside :
      (t : Turn) (msg : String) (s : Session D C Conn)
      → IsOutside s (handle_auth_command sql redis o p t msg s).0
  unfolding handle_auth_command send_msg
  handle_auth_command-IsOutside t msg s h =
      let lower = o.to_lower msg in
      let end = (handle_auth_command sql redis o p t msg s).0 in
      elim (Bool-cases (has_prefix "register|" lower)) [
        | inl registers ↦
            (let same : (auth_register sql redis o p t msg s).0 ≡ end = ground arith in
              subst (IsOutside s) same (auth_register-IsOutside t msg s) h)
        | inr other ↦ elim (Bool-cases (has_prefix "login|" lower)) [
          | inl logs_in ↦
              (let same : (auth_login sql redis o p t msg s).0 ≡ end = ground arith in
                subst (IsOutside s) same (auth_login-IsOutside t msg s) h)
          | inr neither ↦ inl (ground arith)
        ]
      ]

  -- What a line of a user who has not logged in does if he is not logged in after it either. The server is as it was, but for
  -- the database, the cache and the counts of messages: nobody comes online, no message is saved or queued, and no group
  -- changes. The store is as it was, but that the row of one user may have been copied from the database into the cache,
  -- or that the database refused to insert the row of one user.
  pub process_raw_line-guarded :
      (t : Turn) (raw : Bytes) (s : Session D C Conn)
      → s.user.authenticated ≡ false
      → (process_raw_line sql redis o p t raw s).0.user.authenticated ≡ false
      → let s' = (process_raw_line sql redis o p t raw s).0 in
        (s'.server ≡ record (only_storage_and_count s.server s'.server) {
          inbound_messages = s'.server.inbound_messages;
        })
        × IsLookup sql redis (store_of s) (store_of s')
  unfolding process_raw_line
  process_raw_line-guarded t raw s out h =
      let msg = trim_space (decode_input_text o raw) in
      let s' = (process_raw_line sql redis o p t raw s).0 in
      let marked = with_server s (mark_inbound_message s.server) in
      (
        ground (arith, handle_auth_command-IsGuarded t msg marked),
        elim (Bool-cases (is_empty msg)) [
          | inl blank ↦ inl (ground arith)
          | inr text ↦
              (let same : (handle_auth_command sql redis o p t msg marked).0 ≡ s' = ground arith in
                subst (IsOutside marked) same (handle_auth_command-IsOutside t msg marked) h)
        ],
      )
