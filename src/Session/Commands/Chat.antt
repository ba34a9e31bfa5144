-- ===== src/Session/Commands/Chat.antt =====
-- The commands that send a message.
pub mod Talk
use h_go.Base.{
  ℕ, ◌+◌, String, Bool, true, false, not, Option, none, some, List, [], ◌∷◌, select, str_eq,
  if◌then◌else◌, cat,
}
use h_go.Text.Trim.{trim_space}
use h_go.Text.Decimal.{show}
use h_go.Protocol.{Message, zero_message, type_send}
use h_go.Storage.{Database, Redis}
use h_go.Logic.{Clock, Sent, saved, existing, refused, LogicService, process_send}
use h_go.Group.{members_of, role_of}
use h_go.Outside.{Outside}
use h_go.Server.{Server, with_logic, enqueue, send_ack}
use h_go.Session.{Session, with_server, send_msg, send_json}
use h_go.Session.Commands.{two_arguments}

-- The request of a private message, of a group message and of a plain line; the time is in the client id.
abbrev pub chat_request : ℕ → String → String → String → Message
chat_request now from to body = record zero_message {
  type = type_send;
  client_msg_id = cat "c-" (show now);
  from = from;
  to = to;
  body = body;
}

abbrev pub group_request : ℕ → String → String → String → Message
group_request now from group_id body = record zero_message {
  type = type_send;
  client_msg_id = cat "gc-" (show now);
  chat_id = cat "group:" group_id;
  from = from;
  body = body;
}

abbrev pub line_request : ℕ → String → String → Message
line_request now from body = record zero_message {
  type = type_send;
  client_msg_id = cat "c-" (show now);
  from = from;
  body = body;
}

-- The members of a group but the sender.
abbrev pub other_members : String → List String → List String
other_members name = select (λ m. not (str_eq m name))

module _ {D C Conn : Type 0} where
  -- EnqueueServerMsg of the server
  abbrev pub enqueue_for : String → Session D C Conn → Session D C Conn
  enqueue_for id s = with_server s (enqueue id s.server)

module _ {D C Conn : Type 0} (sql : Database D) (redis : Redis C) where
  -- ProcessSend of the server, at the readings after the first
  abbrev pub submit : Clock → Message → List String → Session D C Conn → Session D C Conn × Sent
  submit clock req recipients s =
      let (l, sent) = process_send sql redis (λ n. clock (n + 1)) req recipients s.server.logic in
      (with_server s (with_logic s.server l), sent)

  -- useChat
  unfoldable pub use_chat : Clock → String → Session D C Conn → Session D C Conn
  use_chat clock msg s = elim (two_arguments msg) [
    | none ↦ send_msg "命令格式错误，正确用法：to|用户名|消息，例如：to|bob|你好\n" s
    | some (to_name, to_msg) ↦
        if str_eq to_name s.user.name
        then send_msg "不能给自己发送私聊消息。\n" s
        else (let (s', sent) =
              submit clock (chat_request (clock 0) s.user.name to_name to_msg) (to_name ∷ []) s in
            elim sent [
              | refused e ↦ send_msg (cat "消息发送失败: " e) s'
              | existing m ↦ send_msg (cat "私聊消息幂等命中: " m.server_msg_id) s'
              | saved m ↦
                  send_msg (cat "已将'" (cat to_msg (cat "' 消息发送 --> " (cat to_name "\n"))))
                    (enqueue_for m.server_msg_id s')
            ])
  ]

  -- useGroupTalk
  unfoldable pub use_group_talk : Clock → String → Session D C Conn → Session D C Conn
  use_group_talk clock msg s = elim (two_arguments msg) [
    | none ↦ send_msg "命令格式错误，正确用法：gt|群ID|消息\n" s
    | some (group_id, body) ↦
        if not (role_of s.server.group_manager group_id s.user.name).1
        then send_msg "发送失败: 你不在该群中。\n" s
        else (let (s', sent) =
              submit clock (group_request (clock 0) s.user.name group_id body)
                (other_members s.user.name (members_of s.server.group_manager group_id)) s in
            elim sent [
              | refused e ↦ send_msg (cat "发送群消息失败: " (cat e "\n")) s'
              | existing m ↦ send_msg (cat "群消息幂等命中: " (cat m.server_msg_id "\n")) s'
              | saved m ↦
                  send_msg (cat "群消息已入队: " (cat m.server_msg_id "\n"))
                    (enqueue_for m.server_msg_id s')
            ])
  ]

  -- The default case of DoMessage: a plain line, which is saved for no recipients.
  unfoldable pub use_line : Outside → Clock → String → Session D C Conn → Session D C Conn
  use_line o clock msg s =
      let req = line_request (clock 0) s.user.name msg in
      let (s', sent) = submit clock req [] s in
      elim sent [
        | refused e ↦ send_msg (cat "消息发送失败: " e) s'
        | existing m ↦ send_json o (send_ack req.client_msg_id m.server_msg_id m.seq) s'
        | saved m ↦
            enqueue_for m.server_msg_id
              (send_json o (send_ack req.client_msg_id m.server_msg_id m.seq) s')
      ]
