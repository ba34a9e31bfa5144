-- ===== src/Session/Leaving.antt =====
-- Who is online after a user came, and after he left.
use h_go.Base.{
  ◌≡◌, String, true, false, none, some, arith, Option-cases, inl, inr, Dict, get, put, remove,
  get-put, get-remove, str_eq, if◌then◌else◌, cat, pos,
}
use h_go.Text.Trim.{trim_space, is_empty}
use h_go.Storage.{Answer-cases, Database, Redis}
use h_go.Protocol.{Message}
use h_go.Logic.{Clock}
use h_go.Outside.{Outside}
use h_go.Dao.{get_user_by_name}
use h_go.Server.{
  OnlineInfo, register_online, unregister_online, enqueue_pending, broadcast_system_event,
}
use h_go.Session.{
  Session, Presence, with_user, with_server, send_msg, send_json, close, start_online_heartbeat,
  stop_online_heartbeat, announce, system_message, online, offline, logout,
}
use h_go.Session.Auth.{enter, login, login_as, store_of, with_store_of}

module _ {D C Conn : Type 0} where
  -- The users online, and how the user of the session would stand among them.
  abbrev shown : Session D C Conn → Dict (OnlineInfo Conn) × String × Conn × String
  shown s = (s.server.online_map, s.user.name, s.user.conn, s.user.addr)

  send_msg-shown : (msg : String) (s : Session D C Conn) → shown (send_msg msg s) ≡ shown s
  unfolding send_msg
  send_msg-shown msg s = ground arith

  send_json-shown :
      (o : Outside) (m : Message) (s : Session D C Conn) → shown (send_json o m s) ≡ shown s
  unfolding send_json
  send_json-shown o m s = elim (Option-cases (o.to_json m)) [
    | inl e ↦ ground arith
    | inr (b, e) ↦ ground (arith, send_msg-shown b s)
  ]

module _ {D C Conn : Type 0} (sql : Database D) (redis : Redis C) (o : Outside) (p : Presence) where
  start_online_heartbeat-shown :
      (s : Session D C Conn) → shown (start_online_heartbeat sql redis o p s) ≡ shown s
  unfolding start_online_heartbeat
  start_online_heartbeat-shown s = elim (Option-cases s.server.logic.store.cache) [
    | inl e ↦ ground arith
    | inr (c, e) ↦ ground arith
  ]

  stop_online_heartbeat-shown :
      (s : Session D C Conn) → shown (stop_online_heartbeat sql redis o p s) ≡ shown s
  unfolding stop_online_heartbeat
  stop_online_heartbeat-shown s = elim (Option-cases s.server.logic.store.cache) [
    | inl e ↦ ground arith
    | inr (c, e) ↦ ground arith
  ]

  announce-shown :
      (clock : Clock) (event own : String) (s : Session D C Conn)
      → shown (announce sql redis o p clock event own s) ≡ shown s
  unfolding announce broadcast_system_event
  announce-shown clock event own s =
      let (v, id, seq) = broadcast_system_event sql redis clock event s.user.name s.server in
      send_json-shown o (system_message id seq own) (with_server s v)

  online-shown :
      (clock : Clock) (s : Session D C Conn)
      → is_empty s.user.name ≡ false
      → (online sql redis o p clock s).server.online_map
        ≡ put s.user.name (record { sender = s.user.conn; addr = s.user.addr }) s.server.online_map
  unfolding online register_online enqueue_pending
  online-shown clock s full =
      let u = s.user in
      let v =
        enqueue_pending sql redis u.name (pos 500)
          (register_online u.name u.conn u.addr s.server) in
      let event = cat u.name " ✅ 已上线！" in
      let own : String = "----------------👏欢迎来到 8H-Go 聊天室----------------" in
      ground (
        arith,
        start_online_heartbeat-shown (announce sql redis o p clock event own (with_server s v)),
        announce-shown clock event own (with_server s v),
      )

  offline-shown :
      (clock : Clock) (s : Session D C Conn)
      → is_empty s.user.name ≡ false
      → (offline sql redis o p clock s).server.online_map ≡ remove s.user.name s.server.online_map
  unfolding offline unregister_online
  offline-shown clock s full =
      let s' = stop_online_heartbeat sql redis o p s in
      ground (
        arith,
        stop_online_heartbeat-shown s,
        announce-shown clock (cat s'.user.name " ❌ 已下线！") "你已成功下线，欢迎下次再来。"
            (with_server s' (unregister_online s'.user.name s'.server)),
      )

  -- The first logout of a user who has a name takes this name out of the users online and leaves everyone else there.
  pub logout-offline :
      (clock : Clock) (s : Session D C Conn) (k : String)
      → s.user.logged_out ≡ false
      → is_empty s.user.name ≡ false
      → get k (logout sql redis o p clock s).server.online_map
        ≡ (if str_eq s.user.name k then none else get k s.server.online_map)
  unfolding logout close
  logout-offline clock s k first full = ground (
    arith,
    offline-shown clock (with_user s (record s.user { logged_out = true })),
    get-remove s.user.name k s.server.online_map,
  )

  -- A login that succeeds shows the connection as online under the trimmed name, and leaves everyone else as before.
  pub login-online :
      (clock : Clock) (name password k : String) (s : Session D C Conn)
      → (login sql redis o p clock name password s).1 ≡ none
      → get k (login sql redis o p clock name password s).0.server.online_map ≡ (
          if str_eq (trim_space name) k
          then some (record { sender = s.user.conn; addr = s.user.addr })
          else get k s.server.online_map)
  unfolding login login_as enter
  login-online clock name password k s h =
      let username = trim_space name in
      let (st, su) = get_user_by_name sql redis username (store_of s) in
      let s' = with_store_of s st in
      let named = with_user s' (record s'.user { name = username; authenticated = true }) in
      elim (Answer-cases su) [
        | inl (u, e) ↦ ground (
          arith,
          online-shown clock named,
          get-put username k (record { sender = s.user.conn; addr = s.user.addr })
              s.server.online_map,
        )
        | inr (inl e) ↦ absurd (ground arith)
        | inr (inr (x, e)) ↦ absurd (ground arith)
      ]
