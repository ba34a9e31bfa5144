-- ===== src/Session.antt =====
-- internal/session/session.go: a user's connection, with the channel of the texts that wait to be written to it.
--
-- The field Server of a User is never nil: NewUser gets the server. A method that another goroutine may run in between
-- is one step here; `go u.Logout()` is a logout that is due, which a later step carries out.
pub mod Commands
pub mod Auth
pub mod Dispatch
pub mod Invariant
pub mod Branches
pub mod Leaving
pub mod Sample
mod Tests
pub mod Keeping
pub mod Requests
pub mod Standing
use h_go.Base.{
  ℕ, ◌+◌, ◌-◌, String, Bool, true, false, not, ◌&&◌, ◌||◌, Option, none, some, List, [], ◌∷◌, ◌++◌,
  ltb, length, ◌==◌, if◌then◌else◌, ℤ, pos, cat,
}
use h_go.Text.Trim.{is_empty}
use h_go.Protocol.{Message, zero_message, type_deliver}
use h_go.Storage.{Database, Redis, online_key}
use h_go.Store.{Store, on_cache}
use h_go.Logic.{LogicService, Clock, with_store}
use h_go.Outside.{Outside}
use h_go.Server.{
  Server, register_online, unregister_online, enqueue_pending, broadcast_system_event,
  mark_outbound_message, with_logic,
}

-- The fields of User. `conn` stands for the pointer itself, as the Sender that the server keeps, `c` is the channel with
-- its oldest text first, `heartbeat` is the name whose key the heartbeat renews while heartbeatCancel is set,
-- `logged_out` is whether logoutOnce is done, `due` how many calls of Logout wait to run in a goroutine, and
-- `listening` whether ListenMessage still runs.
pub record User (Conn : Type 0) : Type 0 where
  pub name : String
  pub addr : String
  pub conn : Conn
  pub c : List String
  pub authenticated : Bool
  pub is_closed : Bool
  pub heartbeat : Option String
  pub logged_out : Bool
  pub due : ℕ
  pub listening : Bool

abbrev pub channel_capacity : ℕ
channel_capacity = 10

-- NewUser, of a connection with an address
abbrev pub new_user : {Conn : Type 0} → Conn → String → User Conn
new_user conn addr = record {
  name = addr;
  addr = addr;
  conn = conn;
  c = [];
  authenticated = false;
  is_closed = false;
  heartbeat = none;
  logged_out = false;
  due = 0;
  listening = true;
}

pub record Session (D C Conn : Type 0) : Type 0 where
  pub user : User Conn
  pub server : Server D C Conn

-- The gateway id and the time to live that the cache's settings give.
pub record Presence : Type 0 where
  pub gateway : String
  pub ttl : ℤ

module _ {D C Conn : Type 0} where
  abbrev pub with_user : Session D C Conn → User Conn → Session D C Conn
  with_user s u = record s { user = u }

  abbrev pub with_server : Session D C Conn → Server D C Conn → Session D C Conn
  with_server s v = record s { server = v }

  -- a change of the cache
  abbrev pub with_cache : (C → C) → Session D C Conn → Session D C Conn
  with_cache f s =
      with_server s
        (with_logic s.server (with_store s.server.logic (on_cache f s.server.logic.store)))

  -- SendMsg
  unfoldable pub send_msg : String → Session D C Conn → Session D C Conn
  send_msg msg s =
      let u = s.user in
      if u.is_closed
      then s
      else if ltb (length u.c) channel_capacity
      then record {
        user = record u { c = u.c ++ msg ∷ [] };
        server = mark_outbound_message s.server;
      }
      else with_user s (record u { due = u.due + 1 })

  -- SendJSON, of a message that is not nil
  unfoldable pub send_json : Outside → Message → Session D C Conn → Session D C Conn
  unfolding send_msg
  send_json o m s = elim (o.to_json m) [ none ↦ s | some b ↦ send_msg b s ]

  -- Close, which only Logout calls
  unfoldable pub close : Session D C Conn → Session D C Conn
  close s = with_user s (record s.user { is_closed = true })

-- What Online and Offline send to the user himself.
abbrev pub system_message : String → ℕ → String → Message
system_message id seq body = record zero_message {
  type = type_deliver;
  server_msg_id = id;
  from = "system";
  chat_id = "system";
  seq = seq;
  body = body;
}

module _ {D C Conn : Type 0} (sql : Database D) (redis : Redis C) (o : Outside) (p : Presence) where
  -- startOnlineHeartbeat, up to the goroutine
  unfoldable pub start_online_heartbeat : Session D C Conn → Session D C Conn
  start_online_heartbeat s =
      let u = s.user in
      elim s.server.logic.store.cache [
        | none ↦ with_user s (record u { heartbeat = none })
        | some c ↦
            if is_empty u.name
            then with_user s (record u { heartbeat = none })
            else with_cache (redis.set_text (online_key u.name) p.gateway p.ttl)
                (with_user s (record u { heartbeat = some u.name }))
      ]

  -- one tick of that goroutine, unless it was cancelled
  unfoldable pub heartbeat_tick : Session D C Conn → Session D C Conn
  heartbeat_tick s = elim s.user.heartbeat [
    | none ↦ s
    | some name ↦ with_cache (redis.set_text (online_key name) p.gateway p.ttl) s
  ]

  -- stopOnlineHeartbeat
  unfoldable pub stop_online_heartbeat : Session D C Conn → Session D C Conn
  stop_online_heartbeat s =
      let s' = with_user s (record s.user { heartbeat = none }) in
      if is_empty s.user.name then s' else with_cache (redis.del (online_key s.user.name)) s'

  -- What Online and Offline end with: an event for everyone else, and a text for the user himself.
  unfoldable pub announce : Clock → String → String → Session D C Conn → Session D C Conn
  announce clock event own s =
      let (v, id, seq) = broadcast_system_event sql redis clock event s.user.name s.server in
      send_json o (system_message id seq own) (with_server s v)

  -- Online
  unfoldable pub online : Clock → Session D C Conn → Session D C Conn
  unfolding start_online_heartbeat announce
  online clock s =
      let u = s.user in
      let v =
        enqueue_pending sql redis u.name (pos 500)
          (register_online u.name u.conn u.addr s.server) in
      start_online_heartbeat (
        announce clock (cat u.name " ✅ 已上线！") "----------------👏欢迎来到 8H-Go 聊天室----------------"
          (with_server s v))

  -- Offline
  unfoldable pub offline : Clock → Session D C Conn → Session D C Conn
  unfolding stop_online_heartbeat announce
  offline clock s =
      let s' = stop_online_heartbeat s in
      announce clock (cat s'.user.name " ❌ 已下线！") "你已成功下线，欢迎下次再来。"
        (with_server s' (unregister_online s'.user.name s'.server))

  -- Logout
  unfoldable pub logout : Clock → Session D C Conn → Session D C Conn
  unfolding offline close
  logout clock s =
      if s.user.logged_out
      then s
      else close (offline clock (with_user s (record s.user { logged_out = true })))

  -- A call of Logout that was started as a goroutine runs.
  unfoldable pub run_due : Clock → Session D C Conn → Session D C Conn
  unfolding logout
  run_due clock s =
      if s.user.due == 0
      then s
      else logout clock (with_user s (record s.user { due = s.user.due - 1 }))

  -- One round of ListenMessage: the oldest text and the prompt are written, or the write fails and the loop ends.
  unfoldable pub listen : Bool → Clock → Session D C Conn → Session D C Conn × Option String
  unfolding logout
  listen written clock s = elim s.user.c [
    | [] ↦ (s, none)
    | msg ∷ rest ↦
        if not s.user.listening
        then (s, none)
        else (let s' = with_user s (record s.user { c = rest }) in
            if written
            then (s', some (cat msg (cat "\n" (cat s.user.name "> "))))
            else (logout clock (with_user s' (record s'.user { listening = false })), none))
  ]
