-- ===== src/Session/Invariant.antt =====
-- A user's channel and the end of a session.
use h_go.Base.{
  ◌≤◌, ◌-◌, ◌≡◌, sym, ◌∙◌, subst, String, Bool, true, false, [], ◌∷◌, length, length-append, arith,
  Option-cases, List-cases, Bool-cases, inl, inr, pos, cat,
}
use h_go.Protocol.{Message}
use h_go.Storage.{Database, Redis}
use h_go.Logic.{Clock}
use h_go.Outside.{Outside}
use h_go.Server.{
  Server, register_online, unregister_online, enqueue_pending, broadcast_system_event,
}
use h_go.Session.{
  User, channel_capacity, Session, Presence, with_user, with_server, send_msg, send_json, close,
  start_online_heartbeat, announce, system_message, heartbeat_tick, stop_online_heartbeat, online,
  offline, logout, run_due, listen,
}

-- The channel has at most its capacity of texts, and the session is closed exactly if it was logged out.
abbrev pub IsUser : {Conn : Type 0} → User Conn → Type 0
IsUser u = (length u.c ≤ channel_capacity) × (u.logged_out ≡ u.is_closed)

module _ {D C Conn : Type 0} where
  unfoldable pub IsSession : Session D C Conn → Type 0
  IsSession s = IsUser s.user

  pub with_server-IsSession :
      (s : Session D C Conn) (v : Server D C Conn) → IsSession s → IsSession (with_server s v)
  unfolding IsSession
  with_server-IsSession s v h = h

  pub send_msg-IsSession :
      (msg : String) (s : Session D C Conn) → IsSession s → IsSession (send_msg msg s)
  unfolding send_msg IsSession
  send_msg-IsSession msg s h = ground (arith, length-append s.user.c (msg ∷ []))

  pub send_json-IsSession :
      (o : Outside) (m : Message) (s : Session D C Conn) → IsSession s → IsSession (send_json o m s)
  unfolding send_json IsSession
  send_json-IsSession o m s h = elim (Option-cases (o.to_json m)) [
    | inl e ↦ ground arith
    | inr (b, e) ↦ ground (arith, send_msg-IsSession b s)
  ]

  send_json-user :
      (o : Outside) (m : Message) (s : Session D C Conn)
      → length s.user.c ≤ channel_capacity
      → (length (send_json o m s).user.c ≤ channel_capacity)
        × ((send_json o m s).user.logged_out ≡ s.user.logged_out)
  unfolding send_json send_msg
  send_json-user o m s h = elim (Option-cases (o.to_json m)) [
    | inl e ↦ ground arith
    | inr (b, e) ↦ ground (arith, length-append s.user.c (b ∷ []))
  ]

module _ {D C Conn : Type 0} (sql : Database D) (redis : Redis C) (o : Outside) (p : Presence) where
  start_online_heartbeat-IsSession :
      (s : Session D C Conn) → IsSession s → IsSession (start_online_heartbeat sql redis o p s)
  unfolding start_online_heartbeat IsSession
  start_online_heartbeat-IsSession s h = elim (Option-cases s.server.logic.store.cache) [
    | inl e ↦ ground arith
    | inr (c, e) ↦ ground arith
  ]

  announce-user :
      (clock : Clock) (event own : String) (s : Session D C Conn)
      → length s.user.c ≤ channel_capacity
      → (length (announce sql redis o p clock event own s).user.c ≤ channel_capacity)
        × ((announce sql redis o p clock event own s).user.logged_out ≡ s.user.logged_out)
  unfolding announce
  announce-user clock event own s h =
      let (v, id, seq) = broadcast_system_event sql redis clock event s.user.name s.server in
      send_json-user o (system_message id seq own) (with_server s v) h

  announce-IsSession :
      (clock : Clock) (event own : String) (s : Session D C Conn)
      → IsSession s
      → IsSession (announce sql redis o p clock event own s)
  unfolding announce IsSession
  announce-IsSession clock event own s h =
      let (v, id, seq) = broadcast_system_event sql redis clock event s.user.name s.server in
      send_json-IsSession o (system_message id seq own) (with_server s v) h

  pub online-IsSession :
      (clock : Clock) (s : Session D C Conn)
      → IsSession s
      → IsSession (online sql redis o p clock s)
  unfolding online IsSession
  online-IsSession clock s h =
      let u = s.user in
      let v =
        enqueue_pending sql redis u.name (pos 500)
          (register_online u.name u.conn u.addr s.server) in
      let event = cat u.name " ✅ 已上线！" in
      let own : String = "----------------👏欢迎来到 8H-Go 聊天室----------------" in
      start_online_heartbeat-IsSession (announce sql redis o p clock event own (with_server s v))
        (announce-IsSession clock event own (with_server s v) h)

  pub heartbeat_tick-IsSession :
      (s : Session D C Conn) → IsSession s → IsSession (heartbeat_tick sql redis o p s)
  unfolding heartbeat_tick IsSession
  heartbeat_tick-IsSession s h = elim (Option-cases s.user.heartbeat) [
    | inl e ↦ ground arith
    | inr (n, e) ↦ ground arith
  ]

  stop_online_heartbeat-user :
      (s : Session D C Conn)
      → ((stop_online_heartbeat sql redis o p s).user.c ≡ s.user.c)
        × ((stop_online_heartbeat sql redis o p s).user.logged_out ≡ s.user.logged_out)
  unfolding stop_online_heartbeat
  stop_online_heartbeat-user s = ground arith

  -- Offline sends one text and changes nothing else of the channel, the closing and the logout.
  offline-user :
      (clock : Clock) (s : Session D C Conn)
      → length s.user.c ≤ channel_capacity
      → (length (offline sql redis o p clock s).user.c ≤ channel_capacity)
        × ((offline sql redis o p clock s).user.logged_out ≡ s.user.logged_out)
  unfolding offline
  offline-user clock s h =
      let (c, l) = stop_online_heartbeat-user s in
      let s' = stop_online_heartbeat sql redis o p s in
      let sent =
        announce-user clock _ _ (with_server s' (unregister_online s'.user.name s'.server))
          (subst (λ n. length n ≤ channel_capacity) (sym c) h) in
      (sent.0, sent.1 ∙ l)

  pub logout-IsSession :
      (clock : Clock) (s : Session D C Conn)
      → IsSession s
      → IsSession (logout sql redis o p clock s)
        × ((logout sql redis o p clock s).user.logged_out ≡ true)
  unfolding logout close IsSession
  logout-IsSession clock s h = elim (Bool-cases s.user.logged_out) [
    | inl e ↦ ground arith
    | inr e ↦ ground (arith, offline-user clock (with_user s (record s.user { logged_out = true })))
  ]

  pub run_due-IsSession :
      (clock : Clock) (s : Session D C Conn)
      → IsSession s
      → IsSession (run_due sql redis o p clock s)
  unfolding run_due IsSession
  run_due-IsSession clock s h =
      ground (arith, logout-IsSession clock (with_user s (record s.user { due = s.user.due - 1 })))

  pub listen-IsSession :
      (written : Bool) (clock : Clock) (s : Session D C Conn)
      → IsSession s
      → IsSession (listen sql redis o p written clock s).0
  unfolding listen IsSession
  listen-IsSession written clock s h = elim (List-cases s.user.c) [
    | inl e ↦ ground arith
    | inr (msg, rest, e) ↦ ground (
      arith,
      logout-IsSession clock (with_user s (record s.user { c = rest; listening = false })),
    )
  ]
