-- ===== src/Session/Standing.antt =====
-- What leaves the groups as they are: whatever a session does but for the commands on groups.
use h_go.Base.{
  ◌-◌, ℤ, pos, Bool, List-cases, ◌≡◌, refl, ◌∙◌, String, true, false, Option-cases, inl, inr, arith,
}
use h_go.Storage.{Database, Redis}
use h_go.Protocol.{Message}
use h_go.Logic.{Clock}
use h_go.Outside.{Outside}
use h_go.Group.{GroupManager}
use h_go.Server.{register_online, enqueue_pending, Server, broadcast_system_event}
use h_go.Session.{
  Session, Presence, with_user, with_server, send_msg, send_json, close, stop_online_heartbeat,
  announce, offline, logout, start_online_heartbeat, online, run_due, heartbeat_tick, listen,
}
use h_go.Session.Keeping.{register_online-groups, unregister_online-groups}

module _ {D C Conn : Type 0} where
  unfoldable pub HasGroups : GroupManager → Session D C Conn → Type 0
  HasGroups gm s = s.server.group_manager ≡ gm

  pub send_msg-HasGroups :
      (gm : GroupManager) (msg : String) (s : Session D C Conn)
      → HasGroups gm s
      → HasGroups gm (send_msg msg s)
  unfolding send_msg HasGroups
  send_msg-HasGroups gm msg s h = ground arith

  pub send_json-HasGroups :
      (gm : GroupManager) (o : Outside) (m : Message) (s : Session D C Conn)
      → HasGroups gm s
      → HasGroups gm (send_json o m s)
  unfolding send_json
  send_json-HasGroups gm o m s h = elim (Option-cases (o.to_json m)) [
    | inl e ↦ ground arith
    | inr (b, e) ↦ ground (arith, send_msg-HasGroups gm b s)
  ]

  pub with_server-HasGroups :
      (gm : GroupManager) (s : Session D C Conn) (v : Server D C Conn)
      → v.group_manager ≡ s.server.group_manager
      → HasGroups gm s
      → HasGroups gm (with_server s v)
  unfolding HasGroups
  with_server-HasGroups gm s v e h = e ∙ h

  pub renamed-HasGroups :
      (gm : GroupManager) (s : Session D C Conn) (name : String) (v : Server D C Conn)
      → v.group_manager ≡ s.server.group_manager
      → HasGroups gm s
      → HasGroups gm (record { user = record s.user { name = name }; server = v })
  unfolding HasGroups
  renamed-HasGroups gm s name v e h = e ∙ h

module _ {D C Conn : Type 0} (sql : Database D) (redis : Redis C) (o : Outside) (p : Presence) where
  pub announce-HasGroups :
      (gm : GroupManager) (clock : Clock) (event own : String) (s : Session D C Conn)
      → HasGroups gm s
      → HasGroups gm (announce sql redis o p clock event own s)
  unfolding announce broadcast_system_event
  announce-HasGroups gm clock event own s h =
      send_json-HasGroups gm o _ _ (with_server-HasGroups gm s _ refl h)

  pub stop_online_heartbeat-HasGroups :
      (gm : GroupManager) (s : Session D C Conn)
      → HasGroups gm s
      → HasGroups gm (stop_online_heartbeat sql redis o p s)
  unfolding stop_online_heartbeat HasGroups
  stop_online_heartbeat-HasGroups gm s h = ground arith

  pub offline-HasGroups :
      (gm : GroupManager) (clock : Clock) (s : Session D C Conn)
      → HasGroups gm s
      → HasGroups gm (offline sql redis o p clock s)
  unfolding offline
  offline-HasGroups gm clock s h =
      let s' = stop_online_heartbeat sql redis o p s in
      announce-HasGroups gm clock _ _ _ (
        with_server-HasGroups gm s' _ (unregister_online-groups s'.user.name s'.server)
          (stop_online_heartbeat-HasGroups gm s h))

  pub logout-HasGroups :
      (gm : GroupManager) (clock : Clock) (s : Session D C Conn)
      → HasGroups gm s
      → HasGroups gm (logout sql redis o p clock s)
  unfolding logout close HasGroups
  logout-HasGroups gm clock s h =
      ground (arith, offline-HasGroups gm clock (with_user s (record s.user { logged_out = true })))

  start_online_heartbeat-HasGroups :
      (gm : GroupManager) (s : Session D C Conn)
      → HasGroups gm s
      → HasGroups gm (start_online_heartbeat sql redis o p s)
  unfolding start_online_heartbeat HasGroups
  start_online_heartbeat-HasGroups gm s h = elim (Option-cases s.server.logic.store.cache) [
    | inl e ↦ ground arith
    | inr (c, e) ↦ ground arith
  ]

  enqueue_pending-groups :
      (name : String) (limit : ℤ) (v : Server D C Conn)
      → (enqueue_pending sql redis name limit v).group_manager ≡ v.group_manager
  unfolding enqueue_pending
  enqueue_pending-groups name limit v = refl

  pub online-HasGroups :
      (gm : GroupManager) (clock : Clock) (s : Session D C Conn)
      → HasGroups gm s
      → HasGroups gm (online sql redis o p clock s)
  unfolding online
  online-HasGroups gm clock s h =
      let u = s.user in
      let v = register_online u.name u.conn u.addr s.server in
      start_online_heartbeat-HasGroups gm _ (
        announce-HasGroups gm clock _ _ _ (
          with_server-HasGroups gm s (enqueue_pending sql redis u.name (pos 500) v)
            (enqueue_pending-groups u.name (pos 500) v
              ∙ register_online-groups u.name u.conn u.addr s.server)
            h))

  pub run_due-HasGroups :
      (gm : GroupManager) (clock : Clock) (s : Session D C Conn)
      → HasGroups gm s
      → HasGroups gm (run_due sql redis o p clock s)
  unfolding run_due HasGroups
  run_due-HasGroups gm clock s h =
      ground
        (arith, logout-HasGroups gm clock (with_user s (record s.user { due = s.user.due - 1 })))

  pub heartbeat_tick-HasGroups :
      (gm : GroupManager) (s : Session D C Conn)
      → HasGroups gm s
      → HasGroups gm (heartbeat_tick sql redis o p s)
  unfolding heartbeat_tick HasGroups
  heartbeat_tick-HasGroups gm s h = elim (Option-cases s.user.heartbeat) [
    | inl e ↦ ground arith
    | inr (name, e) ↦ elim (Option-cases s.server.logic.store.cache) [
      | inl none_there ↦ ground arith
      | inr (c, there) ↦ ground arith
    ]
  ]

  pub listen-HasGroups :
      (gm : GroupManager) (written : Bool) (clock : Clock) (s : Session D C Conn)
      → HasGroups gm s
      → HasGroups gm (listen sql redis o p written clock s).0
  unfolding listen HasGroups
  listen-HasGroups gm written clock s h = elim (List-cases s.user.c) [
    | inl e ↦ ground arith
    | inr (msg, rest, e) ↦ ground (
      arith,
      logout-HasGroups gm clock (with_user s (record s.user { c = rest; listening = false })),
    )
  ]
