-- ===== src/Connection/Standing.antt =====
-- What a line of a connection can do to the groups.
use h_go.Base.{
  ◌≡◌, ◌⊎◌, refl, String, true, List, [], ◌∷◌, arith, Option-cases, Bool-cases, inl, inr, cat,
}
use h_go.Text.Trim.{trim_space, is_empty}
use h_go.Text.Find.{has_prefix}
use h_go.Text.Split.{split_cuts}
use h_go.Storage.{Database, Redis}
use h_go.Protocol.{Message}
use h_go.Outside.{Outside, Outcome-cases, Bytes}
use h_go.Server.{mark_inbound_message, handle_message}
use h_go.Session.{Session, Presence, with_server, send_json}
use h_go.Session.Standing.{HasGroups, send_msg-HasGroups, send_json-HasGroups}
use h_go.Session.Dispatch.Rights.{do_message-AreServed}
use h_go.Session.Auth.{register, login}
use h_go.Session.Auth.Standing.{register-HasGroups, login-HasGroups}
use h_go.Group.{GroupManager, Request, serve}
use h_go.Session.Requests.{actor}
use h_go.Logic.{Clock}
use h_go.Server.{Server}
use h_go.Connection.{
  decode_input_text, Turn, auth_register, auth_login, handle_auth_command, send_all, known_line,
  process_raw_line, three_parts, login_parts,
}

module _ {D C Conn : Type 0} (sql : Database D) (redis : Redis C) (o : Outside) (p : Presence) where
  auth_register-HasGroups :
      (gm : GroupManager) (t : Turn) (msg : String) (s : Session D C Conn)
      → HasGroups gm s
      → HasGroups gm (auth_register sql redis o p t msg s).0
  unfolding auth_register
  auth_register-HasGroups gm t msg s h = elim (Option-cases (three_parts (split_cuts "|" 2 msg))) [
    | inl e ↦ ground (arith, send_msg-HasGroups gm "注册格式错误，正确用法：register|用户名|密码\n" s h)
    | inr ((name, password), e) ↦
        (let (s', err) = register sql redis o p t.clock t.salt (trim_space name) password s in
          let kept =
            register-HasGroups sql redis o p gm t.clock t.salt (trim_space name) password s h in
          elim (Option-cases err) [
            | inl n ↦
                ground
                  (arith, send_msg-HasGroups gm (cat "注册并登录成功，欢迎：" (cat s'.user.name "\n")) s' kept)
            | inr (x, n) ↦ ground (arith, send_msg-HasGroups gm (cat "注册失败：" (cat x "\n")) s' kept)
          ])
  ]

  auth_login-HasGroups :
      (gm : GroupManager) (t : Turn) (msg : String) (s : Session D C Conn)
      → HasGroups gm s
      → HasGroups gm (auth_login sql redis o p t msg s).0
  unfolding auth_login
  auth_login-HasGroups gm t msg s h =
      elim (Option-cases (login_parts (three_parts (split_cuts "|" 2 msg)))) [
        | inl e ↦ ground (arith, send_msg-HasGroups gm "登录格式错误，正确用法：login|用户名|密码\n" s h)
        | inr ((name, password), e) ↦
            (let (s', err) = login sql redis o p t.clock (trim_space name) password s in
              let kept = login-HasGroups sql redis o p gm t.clock (trim_space name) password s h in
              elim (Option-cases err) [
                | inl n ↦ ground (
                  arith,
                  send_msg-HasGroups gm (cat "登录成功，欢迎回来：" (cat s'.user.name "\n")) s' kept,
                )
                | inr (x, n) ↦
                    ground (arith, send_msg-HasGroups gm (cat "登录失败：" (cat x "\n")) s' kept)
              ])
      ]

  handle_auth_command-HasGroups :
      (gm : GroupManager) (t : Turn) (msg : String) (s : Session D C Conn)
      → HasGroups gm s
      → HasGroups gm (handle_auth_command sql redis o p t msg s).0
  unfolding handle_auth_command
  handle_auth_command-HasGroups gm t msg s h = ground (
    arith,
    auth_register-HasGroups gm t msg s h,
    auth_login-HasGroups gm t msg s h,
    send_msg-HasGroups gm "请先注册或登录。注册: register|用户名|密码  登录: login|用户名|密码\n" s h,
  )

  send_all-HasGroups :
      (gm : GroupManager) (ms : List Message) (s : Session D C Conn)
      → HasGroups gm s
      → HasGroups gm (send_all sql redis o p ms s)
  unfolding send_all
  send_all-HasGroups gm [] s h = h
  send_all-HasGroups gm (m ∷ ms) s h =
      send_all-HasGroups gm ms (send_json o m s) (send_json-HasGroups gm o m s h)

  handle_message-groups :
      (clock : Clock) (name : String) (m : Message) (v : Server D C Conn)
      → (handle_message sql redis clock name m v).0.group_manager ≡ v.group_manager
  unfolding handle_message
  handle_message-groups clock name m v = ground arith

  -- The groups afterwards: those before, or what one request in the name of a user who has logged in makes of them.
  unfoldable pub IsEntry : Session D C Conn → Server D C Conn → Type 0
  IsEntry s v =
      (v.group_manager ≡ s.server.group_manager)
      ⊎ ((r : Request) × (actor r ≡ s.user.name)
          × (s.user.authenticated ≡ true)
          × (v.group_manager ≡ (serve s.server.group_manager r).0))

  known_line-IsEntry :
      (t : Turn) (msg : String) (s : Session D C Conn)
      → s.user.authenticated ≡ true
      → IsEntry s (known_line sql redis o p t msg s).0.server
  unfolding known_line HasGroups IsEntry
  known_line-IsEntry t msg s known = elim (Bool-cases (has_prefix "{" msg)) [
    | inr text ↦ elim (do_message-AreServed sql redis o p t.clock msg s) [
      | inl same ↦ inl (ground (arith, same))
      | inr (r, by, same) ↦ inr (r, by, known, ground (arith, same))
    ]
    | inl json ↦ elim (Outcome-cases (o.from_json msg)) [
      | inl (m, e) ↦
          (let (v, answers) = handle_message sql redis t.clock s.user.name m s.server in
            let kept =
              send_all-HasGroups s.server.group_manager answers (with_server s v)
                (handle_message-groups t.clock s.user.name m s.server) in
            inl (ground arith))
      | inr (x, e) ↦
          (let kept = send_msg-HasGroups s.server.group_manager (cat "非法 JSON 协议: " x) s refl in
            inl (ground arith))
    ]
  ]

  -- A line of a connection leaves the groups as they are, or makes one request of the group manager, in the name of its user, who
  -- has logged in.
  pub process_raw_line-IsEntry :
      (t : Turn) (raw : Bytes) (s : Session D C Conn)
      → IsEntry s (process_raw_line sql redis o p t raw s).0.server
  unfolding process_raw_line HasGroups IsEntry
  process_raw_line-IsEntry t raw s =
      let msg = trim_space (decode_input_text o raw) in
      let s' = with_server s (mark_inbound_message s.server) in
      let gm = s.server.group_manager in
      elim (Bool-cases (is_empty msg)) [
        | inl blank ↦ inl (ground arith)
        | inr text ↦ elim (Bool-cases s.user.authenticated) [
          | inr unknown ↦
              (let kept = handle_auth_command-HasGroups gm t msg s' refl in inl (ground arith))
          | inl known ↦ elim (known_line-IsEntry t msg s' known) [
            | inl same ↦ inl (ground (arith, same))
            | inr (r, by, auth, same) ↦ inr (r, by, auth, ground (arith, same))
          ]
        ]
      ]
