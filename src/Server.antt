-- ===== src/Server.antt =====
-- internal/server: the state of the server, the users online, and what the server does with a connection, a message of
-- the protocol and an event of its own.
pub mod Resend
pub mod Broadcast
pub mod Stats
pub mod Arrival
pub mod Reaching
mod Tests
use h_go.Base.{
  ℕ, ◌+◌, ◌%◌, ◌^◌, Option, none, some, cat, ℤ, pos, ◌/◌, String, Bool, not, List, [], ◌∷◌, select,
  str_eq, if◌then◌else◌, Dict, keys, put, remove, second,
}
use h_go.Text.Trim.{trim_space, is_empty}
use h_go.Protocol.{
  Message, zero_message, type_send, type_send_ack, type_deliver, type_deliver_ack, type_read_ack,
}
use h_go.Storage.{Database, Redis}
use h_go.Store.Messages.{next_seq, save_message_with_recipients}
use h_go.Logic.{
  LogicService, saved, existing, refused, Clock, with_store, generate_server_msg_id, client_id_of,
  process_send, handle_deliver_ack, handle_read_ack,
}
use h_go.Worker.{Worker, enqueue_server_msg, enqueue_pending_for_user, recover_pending_deliveries}
use h_go.Outside.{Outside}
use h_go.Group.{GroupManager, new_group_manager}
use h_go.Security.{Gate, allow_connection, load_blacklist}
use h_go.Env.{Environment}
use h_go.Env.Settings.{rate_window, rate_limit, get_env}
use h_go.Store.{Store, new_store}

-- A connection with its address.
pub record OnlineInfo (Conn : Type 0) : Type 0 where
  pub sender : Conn
  pub addr : String

-- The fields of Server that change; the worker is set before the first connection. `store` is that of `logic`, and `gate`
-- has the four fields of the connection security. The counters are of type uint64, but for `active_conn`, of type int64,
-- which is raised before it is lowered.
pub record Server (D C Conn : Type 0) : Type 0 where
  pub online_map : Dict (OnlineInfo Conn)
  pub logic : LogicService D C
  pub group_manager : GroupManager
  pub worker : Worker
  pub gate : Gate
  pub start_at : ℕ
  pub total_connections : ℕ
  pub rejected_conn : ℕ
  pub inbound_messages : ℕ
  pub outbound_messages : ℕ
  pub active_conn : ℕ

-- The sender of a request: the user of the connection, if the request names none.
abbrev pub sender_of : String → String → String
sender_of name from = if is_empty (trim_space from) then name else from

-- The request once HandleClientSend has filled in its sender and its client id.
abbrev pub completed : String → ℕ → Message → Message
completed name now req = record req {
  from = sender_of name req.from;
  client_msg_id = client_id_of req now;
}

-- `&Message{Type: TypeSendAck, …}`
abbrev pub send_ack : String → String → ℕ → Message
send_ack client_msg_id server_msg_id seq = record zero_message {
  type = type_send_ack;
  client_msg_id = client_msg_id;
  server_msg_id = server_msg_id;
  seq = seq;
}

-- `&LogicService{store: s}`
abbrev pub new_logic_service : {D C : Type 0} → Store D C → LogicService D C
new_logic_service s = record { store = s; id_counter = 0 }

-- ListOnlineUsers: the names with their addresses
unfoldable pub list_online_users : {Conn : Type 0} → Dict (OnlineInfo Conn) → List (String × String)
list_online_users [] = []
list_online_users ((name, info) ∷ rest) = (name, info.addr) ∷ list_online_users rest

-- The map of senders that main passes to the worker.
unfoldable pub senders : {Conn : Type 0} → Dict (OnlineInfo Conn) → Dict (Option Conn)
senders [] = []
senders ((name, info) ∷ rest) = (name, some info.sender) ∷ senders rest

-- parseIP, of an address that may be nil
unfoldable pub parse_ip : Outside → Option String → String
parse_ip o none = ""
parse_ip o (some addr) = elim (o.split_host_port addr) [ none ↦ addr | some host ↦ host ]

-- `atomic.AddUint64(&n, 1)`
abbrev pub add_one : ℕ → ℕ
add_one n = (n + 1) % 2 ^ 64

module _ {D C Conn : Type 0} where
  -- NewServer and SetWorker, with storage.DB and the Redis client
  abbrev pub new_server : Environment → ℕ → Bool → D → Option C → Worker → Server D C Conn
  new_server env now has_db db cache worker = record {
    online_map = [];
    logic = new_logic_service (new_store has_db db cache);
    group_manager = new_group_manager;
    worker = worker;
    gate = record {
      blacklist_ips = load_blacklist (get_env "IM_BLACKLIST_IPS" env);
      rate_window = rate_window env;
      rate_limit = rate_limit env;
      attempts = [];
    };
    start_at = now;
    total_connections = 0;
    rejected_conn = 0;
    inbound_messages = 0;
    outbound_messages = 0;
    active_conn = 0;
  }

  abbrev pub mark_inbound_message : Server D C Conn → Server D C Conn
  mark_inbound_message s = record s { inbound_messages = add_one s.inbound_messages }

  abbrev pub mark_outbound_message : Server D C Conn → Server D C Conn
  mark_outbound_message s = record s { outbound_messages = add_one s.outbound_messages }

  -- RegisterOnline, of a sender that is not nil
  unfoldable pub register_online : String → Conn → String → Server D C Conn → Server D C Conn
  register_online name sender addr s =
      if is_empty name
      then s
      else record s { online_map = put name (record { sender = sender; addr = addr }) s.online_map }

  -- UnregisterOnline
  unfoldable pub unregister_online : String → Server D C Conn → Server D C Conn
  unregister_online name s =
      if is_empty name then s else record s { online_map = remove name s.online_map }

  -- Everyone who is online, but one.
  abbrev pub others : String → Server D C Conn → List String
  others name s = select (λ n. not (str_eq n name)) (keys s.online_map)

  abbrev pub recipients_of : String → Message → Server D C Conn → List String
  recipients_of name req s = if not (is_empty req.to) then req.to ∷ [] else others name s

  -- EnqueueServerMsg
  abbrev pub enqueue : String → Server D C Conn → Server D C Conn
  enqueue id s = record s { worker = enqueue_server_msg id s.worker }

  abbrev pub with_logic : Server D C Conn → LogicService D C → Server D C Conn
  with_logic s l = record s { logic = l }

  abbrev pub with_group_manager : Server D C Conn → GroupManager → Server D C Conn
  with_group_manager s gm = record s { group_manager = gm }

  -- One round of acceptLoop, for a connection whose address parseIP has read: the text for one that is refused.
  unfoldable pub accept : String → ℕ → Server D C Conn → Server D C Conn × Option String
  accept ip now s =
      let (gate, ok, reason) = allow_connection ip now s.gate in
      let s' = record s { gate = gate } in
      if ok then (s', none) else (
        record s' { rejected_conn = add_one s'.rejected_conn },
        some (cat "连接被拒绝: " (cat reason "\n")),
      )

module _ {D C Conn : Type 0} (sql : Database D) (redis : Redis C) where
  -- EnqueuePendingForUser and RecoverPendingDeliveries, on the worker and the store of the server
  unfoldable pub enqueue_pending : String → ℤ → Server D C Conn → Server D C Conn
  enqueue_pending name limit s =
      let (w, st) = enqueue_pending_for_user sql redis name limit s.worker s.logic.store in
      record s { worker = w; logic = with_store s.logic st }

  -- Start, up to the loop, with a worker that takes nothing from the channel until the recovery is done: its goroutines are
  -- started just before it, and may already run.
  unfoldable pub start : Server D C Conn → Server D C Conn
  start s =
      let (w, st) = recover_pending_deliveries sql redis (pos 2000) s.worker s.logic.store in
      record s { worker = w; logic = with_store s.logic st }

  -- HandleClientSend, of the user with a name: the server, and the answer that SendJSON gets.
  unfoldable pub handle_client_send :
      Clock → String → Message → Server D C Conn → Server D C Conn × Message
  handle_client_send clock name req s =
      let r = completed name (clock 0) req in
      let (l, sent) =
        process_send sql redis (λ n. clock (n + 1)) r (recipients_of name r s) s.logic in
      elim sent [
        | refused e ↦ (with_logic s l, send_ack r.client_msg_id "" 0)
        | existing m ↦ (with_logic s l, send_ack r.client_msg_id m.server_msg_id m.seq)
        | saved m ↦ (
          enqueue m.server_msg_id (with_logic s l),
          send_ack r.client_msg_id m.server_msg_id m.seq,
        )
      ]

  -- HandleMessage: the server and the answers.
  unfoldable pub handle_message :
      Clock → String → Message → Server D C Conn → Server D C Conn × List Message
  unfolding handle_client_send
  handle_message clock name m s =
      if str_eq m.type type_send
      then (let req = record m { from = if is_empty m.from then name else m.from } in
          let (s', answer) = handle_client_send clock name req s in (s', answer ∷ []))
      else if str_eq m.type type_deliver_ack
      then (
        (if not (is_empty m.server_msg_id)
            then with_logic s (handle_deliver_ack sql redis name m.server_msg_id (clock 0) s.logic)
            else s),
        [],
      )
      else if str_eq m.type type_read_ack
      then (
        (if not (is_empty m.server_msg_id)
            then with_logic s (handle_read_ack sql redis name m.server_msg_id (clock 0) s.logic)
            else s),
        [],
      )
      else (s, [])

  -- BroadcastSystemEvent, which does not look at the error of the save.
  unfoldable pub broadcast_system_event :
      Clock → String → String → Server D C Conn → Server D C Conn × String × ℕ
  broadcast_system_event clock body exclude s =
      let (st, seq) = next_seq sql "system" s.logic.store in
      let (l, id) = generate_server_msg_id "sys" (clock 0) (with_store s.logic st) in
      let msg : Message = record {
        type = type_deliver;
        client_msg_id = "";
        server_msg_id = id;
        chat_id = "system";
        from = "system";
        to = "";
        seq = seq;
        status = 0;
        body = body;
        ts = clock 1 / second;
      } in
      let st' = (save_message_with_recipients sql redis msg (others exclude s) l.store).0 in
      (enqueue id (with_logic s (with_store l st')), id, seq)
