-- ===== src/Store/Messages.antt =====
-- internal/store/messages.go: sequence numbers, saving a message with its deliveries, and the two lookups.
pub mod Seq
pub mod Saved
use h_go.Base.{
  ℕ, ◌+◌, ◌%◌, ◌^◌, String, Bool, true, false, not, ◌&&◌, ◌||◌, Option, none, some, List, [], ◌∷◌,
  str_eq, ◌==◌, if◌then◌else◌, get, put, Dict,
}
use h_go.Text.Trim.{is_empty}
use h_go.Protocol.{Message}
use h_go.Storage.{
  MessageRow, RecipientRow, Answer, found, not_found, failed, Table, Database, Redis,
  recipients_key, pending_user_key, pending_due_key, pending_recover_key,
}
use h_go.Store.{Store, Deliveries, Error, on_cache, with_db, or_zero}
use h_go.Store.Helpers.{to_db_message, from_db_message}
use h_go.Store.Deliveries.{save_delivery_unsafe}

-- `&storage.MessageRecipient{ServerMsgID: id, ToUser: to, Status: 0}`
abbrev pub new_recipient : String → String → RecipientRow
new_recipient id to = record {
  id = 0;
  server_msg_id = id;
  to_user = to;
  status = 0;
  retry_count = 0;
  next_retry_at = none;
  last_error = "";
  last_send_at = none;
  acked_at = none;
  read_at = none;
  create_time = 0;
  update_time = 0;
}

-- saveMessageUnsafe, on the two maps; cloneMessage is the identity on values.
unfoldable pub save_by_client : Message → Dict (Dict Message) → Dict (Dict Message)
save_by_client msg by_client =
    if not (is_empty msg.from) && not (is_empty msg.client_msg_id)
    then elim (get msg.from by_client) [
      | none ↦ put msg.from (put msg.client_msg_id msg []) by_client
      | some m ↦ put msg.from (put msg.client_msg_id msg m) by_client
    ]
    else by_client

-- `for _, to := range recipients { s.saveDeliveryUnsafe(id, to) }`
unfoldable pub save_deliveries : String → List String → Deliveries → Deliveries
save_deliveries id [] d = d
save_deliveries id (to ∷ rest) d = save_deliveries id rest (save_delivery_unsafe id to d)

-- `m, ok := s.byClient[from]; msg, ok2 := m[clientMsgID]`
abbrev pub client_entry : String → String → Dict (Dict Message) → Option Message
client_entry from client_msg_id by_client = elim (get from by_client) [
  | none ↦ none
  | some m ↦ get client_msg_id m
]

module _ {D C : Type 0} where
  unfoldable pub save_message_unsafe : Message → Store D C → Store D C
  unfolding save_by_client
  save_message_unsafe msg s = record s {
    messages = put msg.server_msg_id msg s.messages;
    by_client = save_by_client msg s.by_client;
  }

  -- the part of SaveMessageWithRecipients under the lock
  unfoldable pub keep_saved : Message → List String → Store D C → Store D C
  unfolding save_message_unsafe save_deliveries
  keep_saved msg recipients s =
      let s' = save_message_unsafe msg s in
      record s' { deliveries = save_deliveries msg.server_msg_id recipients s'.deliveries }

module _ {D C : Type 0} (sql : Database D) where
  -- The largest stored number of a chat, where there is a database and it answers.
  unfoldable pub max_stored : String → Store D C → Option ℕ
  max_stored chat_id s =
      if s.persistent
      then elim (sql.max_seq (λ r. str_eq r.chat_id chat_id) s.db) [
        | found max_seq ↦ some max_seq
        | not_found ↦ none
        | failed e ↦ none
      ]
      else none

  -- The counters once that number has been read in, where it has to be.
  unfoldable pub seqs_loaded : String → Store D C → Dict ℕ
  seqs_loaded chat_id s = elim (get chat_id s.next_seq) [
    | some n ↦ s.next_seq
    | none ↦ elim (max_stored chat_id s) [
      | none ↦ s.next_seq
      | some max_seq ↦ put chat_id max_seq s.next_seq
    ]
  ]

  -- NextSeq; its error is always nil.
  unfoldable pub next_seq : String → Store D C → Store D C × ℕ
  next_seq chat_id s =
      let chat = if is_empty chat_id then "default" else chat_id in
      let seqs = seqs_loaded chat s in
      let seq = (or_zero (get chat seqs) + 1) % 2 ^ 64 in
      (record s { next_seq = put chat seq seqs }, seq)

module _ {D : Type 0} (sql : Database D) where
  -- The loop of the transaction over the recipients.
  insert_recipients : String → List String → D → D × Error
  insert_recipients id [] d = (d, none)
  insert_recipients id (to ∷ rest) d =
      let (d', e) =
        if is_empty to then (d, none) else sql.recipients.insert_ignore (new_recipient id to) d in
      elim e [ some x ↦ (d', some x) | none ↦ insert_recipients id rest d' ]

  unfoldable pub save_transaction : Message → List String → D → D × Error
  unfolding insert_recipients
  save_transaction msg recipients d =
      let (d', e) = sql.messages.insert_ignore (to_db_message msg) d in
      elim e [ some x ↦ (d', some x) | none ↦ insert_recipients msg.server_msg_id recipients d' ]

module _ {C : Type 0} (redis : Redis C) where
  del_pending_users : List String → C → C
  del_pending_users [] c = c
  del_pending_users (to ∷ rest) c =
      del_pending_users rest (if is_empty to then c else redis.del (pending_user_key to) c)

  unfoldable pub refresh_saved : String → List String → C → C
  unfolding del_pending_users
  refresh_saved id recipients c = redis.del pending_recover_key (
      redis.del pending_due_key
        (del_pending_users recipients (redis.set_list (recipients_key id) recipients 5 c)))

module _ {D C : Type 0} (sql : Database D) (redis : Redis C) where
  -- SaveMessageWithRecipients, of a message that is not nil.
  unfoldable pub save_message_with_recipients :
      Message → List String → Store D C → Store D C × Error
  save_message_with_recipients msg recipients s =
      if is_empty msg.server_msg_id
      then (s, some "invalid message")
      else if s.persistent
      then (let (d, e) = sql.transaction (save_transaction sql msg recipients) s.db in
          elim e [
            | some x ↦ (with_db s d, some x)
            | none ↦ (
              keep_saved msg recipients
                  (on_cache (refresh_saved redis msg.server_msg_id recipients) (with_db s d)),
              none,
            )
          ])
      else (keep_saved msg recipients s, none)

  -- SaveMessage
  unfoldable pub save_message : Message → Store D C → Store D C × Error
  unfolding save_message_with_recipients
  save_message msg s = save_message_with_recipients msg [] s

  -- GetMessageByClientID, which keeps what it read from the database.
  unfoldable pub get_message_by_client_id : String → String → Store D C → Store D C × Option Message
  get_message_by_client_id from client_msg_id s =
      if is_empty from || is_empty client_msg_id
      then (s, none)
      else elim (client_entry from client_msg_id s.by_client) [
        | some msg ↦ (s, some msg)
        | none ↦
            if not s.persistent
            then (s, none)
            else elim (sql.messages.take_row
                (λ r. str_eq r.send_id from && str_eq r.client_msg_id client_msg_id) s.db) [
                  | found row ↦
                      let msg = from_db_message row in (save_message_unsafe msg s, some msg)
                  | not_found ↦ (s, none)
                  | failed e ↦ (s, none)
                ]
      ]

  -- markRecipientRowsDeadIfMessageMissing
  unfoldable pub mark_recipient_rows_dead_if_message_missing :
      String → String → Store D C → Store D C
  mark_recipient_rows_dead_if_message_missing id reason s =
      if not s.persistent || is_empty id
      then s
      else let text = if is_empty reason then "message not found" else reason in
        let (d, e, n) =
          sql.recipients.update_rows (λ r. str_eq r.server_msg_id id && (r.status == 0))
            (λ r. record r { status = 3; last_error = text; next_retry_at = none }) s.db in
        with_db s d

  -- GetMessageByServerID
  unfoldable pub get_message_by_server_id : String → Store D C → Store D C × Option Message
  unfolding mark_recipient_rows_dead_if_message_missing
  get_message_by_server_id id s = elim (get id s.messages) [
    | some msg ↦ (s, some msg)
    | none ↦
        if not s.persistent || is_empty id
        then (s, none)
        else elim (sql.messages.take_row (λ r. str_eq r.server_msg_id id) s.db) [
          | found row ↦ let msg = from_db_message row in (save_message_unsafe msg s, some msg)
          | not_found ↦ (mark_recipient_rows_dead_if_message_missing id "message not found" s, none)
          | failed e ↦ (s, none)
        ]
  ]
