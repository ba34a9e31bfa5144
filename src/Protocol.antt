-- ===== src/Protocol.antt =====
-- internal/protocol/protocol.go: the message that clients, store and worker share. A `uint64`, an `int8`
-- that is never negative and a time since 1970 are natural numbers.
use h_go.Base.{ℕ, String}

abbrev pub MsgType : Type 0
MsgType = String

abbrev pub type_send : MsgType
type_send = "send"

abbrev pub type_send_ack : MsgType
type_send_ack = "send_ack"

abbrev pub type_deliver : MsgType
type_deliver = "deliver"

abbrev pub type_deliver_ack : MsgType
type_deliver_ack = "deliver_ack"

abbrev pub type_read_ack : MsgType
type_read_ack = "read_ack"

pub record Message : Type 0 where
  pub type : MsgType
  pub client_msg_id : String
  pub server_msg_id : String
  pub chat_id : String
  pub from : String
  pub to : String
  pub seq : ℕ
  pub status : ℕ
  pub body : String
  pub ts : ℕ

-- `&Message{}`: every field has its zero value.
abbrev pub zero_message : Message
zero_message = record {
  type = "";
  client_msg_id = "";
  server_msg_id = "";
  chat_id = "";
  from = "";
  to = "";
  seq = 0;
  status = 0;
  body = "";
  ts = 0;
}
