-- ===== src/Logic.antt =====
-- internal/server/logic.go: message ids, sending a message once, and the two acknowledgements.
mod Tests
pub mod Ids
pub mod Acks
pub mod Sending
pub mod Memory
use h_go.Base.{
  ℕ, ◌+◌, ◌/◌, ◌%◌, ◌^◌, String, Bool, not, ◌&&◌, ◌||◌, Option, none, some, List, str_eq, cat,
  if◌then◌else◌, second,
}
use h_go.Text.Trim.{trim_space, is_empty}
use h_go.Text.Decimal.{show}
use h_go.Utils.{c2c_chat_id}
use h_go.Protocol.{Message, type_deliver}
use h_go.Storage.{Database, Redis}
use h_go.Store.{Store}
use h_go.Store.Messages.{next_seq, get_message_by_client_id, save_message_with_recipients}
use h_go.Store.Delivery.{mark_delivery_acked, mark_delivery_read}

-- LogicService; it owns the store here, which the source shares by a pointer.
pub record LogicService (D C : Type 0) : Type 0 where
  pub store : Store D C
  pub id_counter : ℕ

-- What ProcessSend returns: exactly one of the saved message, the message that was sent before, and an error.
pub data Sent : Type 0 where
  saved : Message → Sent
  existing : Message → Sent
  refused : String → Sent

-- A clock gives the readings of time.Now() of one call, in nanoseconds since 1970, by their order.
abbrev pub Clock : Type 0
Clock = ℕ → ℕ

abbrev pub unix_milli : ℕ → ℕ
unix_milli now = now / 1_000_000

-- `fmt.Sprintf("%s-%d-%d", p, milli, seq)`
unfoldable pub server_msg_id_of : String → ℕ → ℕ → String
server_msg_id_of p milli seq = cat p (cat "-" (cat (show milli) (cat "-" (show seq))))

-- `fmt.Sprintf("c-%d", time.Now().UnixNano())`
abbrev pub client_msg_id_at : ℕ → String
client_msg_id_at now = cat "c-" (show now)

module _ {D C : Type 0} where
  abbrev pub with_store : LogicService D C → Store D C → LogicService D C
  with_store l s = record l { store = s }

  -- GenerateServerMsgID
  unfoldable pub generate_server_msg_id : String → ℕ → LogicService D C → LogicService D C × String
  unfolding server_msg_id_of
  generate_server_msg_id prefix now l =
      let p = trim_space prefix in
      let p' = if is_empty p then "s" else p in
      let seq = (l.id_counter + 1) % 2 ^ 64 in
      (record l { id_counter = seq }, server_msg_id_of p' (unix_milli now) seq)

-- The chat of a request.
unfoldable pub chat_of : Message → String
unfolding c2c_chat_id
chat_of req =
    let chat_id = trim_space req.chat_id in
    let chat_id' =
      if is_empty chat_id && not (is_empty req.to) then c2c_chat_id req.from req.to else chat_id in
    if is_empty chat_id' then "broadcast" else chat_id'

-- `req.ClientMsgID`, made up from the clock where it is blank.
unfoldable pub client_id_of : Message → ℕ → String
client_id_of req now =
    if is_empty (trim_space req.client_msg_id) then client_msg_id_at now else req.client_msg_id

module _ {D C : Type 0} (sql : Database D) (redis : Redis C) where
  -- ProcessSend once nothing was found under the client's id: the number, the id and the save.
  unfoldable pub send_new :
      Clock → Message → String → List String → LogicService D C → LogicService D C × Sent
  unfolding chat_of
  send_new clock req client_id recipients l =
      let chat_id = chat_of req in
      let (s, seq) = next_seq sql chat_id l.store in
      let (l', id) = generate_server_msg_id "s" (clock 1) (with_store l s) in
      let msg : Message = record {
        type = type_deliver;
        server_msg_id = id;
        client_msg_id = client_id;
        chat_id = chat_id;
        from = req.from;
        to = req.to;
        seq = seq;
        status = 0;
        body = req.body;
        ts = clock 2 / second;
      } in
      let (s', e) = save_message_with_recipients sql redis msg recipients l'.store in
      (with_store l' s', elim e [ some x ↦ refused x | none ↦ saved msg ])

  -- ProcessSend, of a request that is not nil.
  unfoldable pub process_send :
      Clock → Message → List String → LogicService D C → LogicService D C × Sent
  unfolding client_id_of send_new
  process_send clock req recipients l =
      if is_empty (trim_space req.from)
      then (l, refused "from is empty")
      else (let client_id = client_id_of req (clock 0) in
          let (s, ex) = get_message_by_client_id sql redis req.from client_id l.store in
          elim ex [
            | some m ↦ (with_store l s, existing m)
            | none ↦ send_new clock req client_id recipients (with_store l s)
          ])

  -- HandleDeliverAck
  unfoldable pub handle_deliver_ack : String → String → ℕ → LogicService D C → LogicService D C
  handle_deliver_ack username id now l =
      if is_empty username || is_empty id
      then l
      else with_store l (mark_delivery_acked sql redis id username now l.store).0

  -- HandleReadAck
  unfoldable pub handle_read_ack : String → String → ℕ → LogicService D C → LogicService D C
  handle_read_ack username id now l =
      if is_empty username || is_empty id
      then l
      else with_store l (mark_delivery_read sql redis id username now l.store).0
