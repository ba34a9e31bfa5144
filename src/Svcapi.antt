-- ===== src/Svcapi.antt =====
-- internal/svcapi/api.go: what the session asks of the server and of the group manager, and what the server asks
-- of a connection. Go's interfaces are records of operations on a state; the server, the group manager and the
-- user are instances of them (internal/server/api.go).
pub mod Contract
mod Tests
use h_go.Base.{ℕ, String, Bool, true, Option, none, some, List, [], ◌∷◌, ℤ, ◌+◌}
use h_go.Protocol.{Message}
use h_go.Storage.{Database, Redis}
use h_go.Store.{Store}
use h_go.Store.Messages.{next_seq}
use h_go.Store.History.{get_c2c_history}
use h_go.Outside.{Outside}
use h_go.Logic.{
  Sent, Clock, with_store, generate_server_msg_id, process_send, handle_deliver_ack,
  handle_read_ack,
}
use h_go.Group.{
  GroupManager, Error, create, join, leave, delete, kick, grant_admin, revoke_admin, members_of,
  role_of,
}
use h_go.Server.{
  Server, with_logic, register_online, unregister_online, enqueue_pending, broadcast_system_event,
  enqueue, mark_outbound_message, list_online_users,
}
use h_go.Server.Stats.{snapshot_stats_text}
use h_go.Session.{Session, send_json, send_msg}

-- Sender
pub record Sender (S : Type 0) : Type 0 where
  pub send_json : Message → S → S
  pub send_msg : String → S → S

-- GroupManagerAPI, on the state of a manager
pub record GroupManagerApi (G : Type 0) : Type 0 where
  pub create : G → String → String → G × Error
  pub join : G → String → String → G × Error
  pub leave : G → String → String → G × Error
  pub delete : G → String → String → G × Error
  pub kick : G → String → String → String → G × Error
  pub grant_admin : G → String → String → String → G × Error
  pub revoke_admin : G → String → String → String → G × Error
  pub members : G → String → List String
  pub role_of : G → String → String → String × Bool

-- ServerAPI, on the state of a server; the clock is what the calls of time.Now give.
pub record ServerApi (S Conn G : Type 0) : Type 0 where
  pub register_online : String → Conn → String → S → S
  pub unregister_online : String → S → S
  pub enqueue_pending_for_user : String → ℤ → S → S
  pub broadcast_system_event : Clock → String → String → S → S × String × ℕ
  pub process_send : Clock → Message → List String → S → S × Sent
  pub handle_deliver_ack : String → String → ℕ → S → S
  pub handle_read_ack : String → String → ℕ → S → S
  pub enqueue_server_msg : String → S → S
  pub get_c2c_history : String → String → ℤ → S → List Message
  pub snapshot_stats_text : ℕ → S → String
  pub mark_outbound : S → S
  pub list_online_users : S → List (String × String)
  pub group_manager : S → G

-- User is a Sender.
abbrev pub user_sender : {D C Conn : Type 0} → Outside → Sender (Session D C Conn)
user_sender o = record { send_json = send_json o; send_msg = send_msg }

abbrev pub group_manager_api : GroupManagerApi GroupManager
group_manager_api = record {
  create = create;
  join = join;
  leave = leave;
  delete = delete;
  kick = kick;
  grant_admin = grant_admin;
  revoke_admin = revoke_admin;
  members = members_of;
  role_of = role_of;
}

module _ {D C Conn : Type 0} (sql : Database D) (redis : Redis C) where
  -- ProcessSend, HandleDeliverAck and HandleReadAck of the server pass the call on to its logic, which is never nil.
  abbrev pub server_process_send :
      Clock → Message → List String → Server D C Conn → Server D C Conn × Sent
  server_process_send clock req to s =
      let (l, sent) = process_send sql redis clock req to s.logic in (with_logic s l, sent)

  abbrev pub server_deliver_ack : String → String → ℕ → Server D C Conn → Server D C Conn
  server_deliver_ack name id now s = with_logic s (handle_deliver_ack sql redis name id now s.logic)

  abbrev pub server_read_ack : String → String → ℕ → Server D C Conn → Server D C Conn
  server_read_ack name id now s = with_logic s (handle_read_ack sql redis name id now s.logic)

  -- GenerateServerMsgID and NextSeq of internal/server/id.go
  abbrev pub server_generate_id : ℕ → Server D C Conn → Server D C Conn × String
  server_generate_id now s =
      let (l, id) = generate_server_msg_id "s" now s.logic in (with_logic s l, id)

  abbrev pub server_next_seq : String → Server D C Conn → Server D C Conn × ℕ
  server_next_seq chat_id s =
      let (st, seq) = next_seq sql chat_id s.logic.store in
      (with_logic s (with_store s.logic st), seq)

  -- GetC2CHistory
  abbrev pub server_history : String → String → ℤ → Server D C Conn → List Message
  server_history a b limit s = get_c2c_history sql a b limit s.logic.store

  abbrev pub server_api : Outside → ServerApi (Server D C Conn) Conn GroupManager
  server_api o = record {
    register_online = register_online;
    unregister_online = unregister_online;
    enqueue_pending_for_user = enqueue_pending sql redis;
    broadcast_system_event = broadcast_system_event sql redis;
    process_send = server_process_send;
    handle_deliver_ack = server_deliver_ack;
    handle_read_ack = server_read_ack;
    enqueue_server_msg = enqueue;
    get_c2c_history = server_history;
    snapshot_stats_text = snapshot_stats_text sql o;
    mark_outbound = mark_outbound_message;
    list_online_users = λ s. list_online_users s.online_map;
    group_manager = λ s. s.group_manager;
  }
