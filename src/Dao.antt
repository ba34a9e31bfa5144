-- ===== src/Dao.antt =====
-- internal/dao: the queries on users, messages and recipients. They use the global storage.DB and
-- the Redis client, which the store has as its `db` and `cache`; its `persistent` is `storage.DB != nil`, since
-- main opens the database before it makes the store. A pointer that is passed is never nil.
use h_go.Base.{
  ℕ, ◌*◌, String, not, ◌&&◌, Option, none, some, List, [], ◌==◌, leb, str_eq, if◌then◌else◌, ℤ,
  limit_clause,
}
use h_go.Text.Trim.{is_empty}
use h_go.Text.Decimal.{parse_uint}
use h_go.Storage.{
  UserRow, MessageRow, RecipientRow, Answer, found, not_found, failed, Database, Redis, user_key,
}
use h_go.Store.{Store, Error, on_cache, with_db}

-- The text of gorm.ErrRecordNotFound.
abbrev pub record_not_found : String
record_not_found = "record not found"

-- The error of a write that must have changed a row.
abbrev changed_some : ℕ → Error
changed_some n = if n == 0 then some record_not_found else none

abbrev pub half_hour : ℕ
half_hour = 30 * 60

-- The user in the cache, if there is a cache and it has him.
abbrev pub cached_user : {D C : Type 0} → Redis C → String → Store D C → Option UserRow
cached_user redis name s = elim s.cache [ none ↦ none | some c ↦ redis.get_user (user_key name) c ]

module _ {D C : Type 0} (sql : Database D) (redis : Redis C) where
  -- CreateUser
  unfoldable pub create_user : UserRow → Store D C → Store D C × Error
  create_user user s =
      if not s.persistent
      then (s, some "数据库未初始化")
      else (let (d, row, e) = sql.users.insert user s.db in
          elim e [
            | some x ↦ (with_db s d, some x)
            | none ↦ (
              on_cache (redis.set_user (user_key user.user_name) row half_hour) (with_db s d),
              none,
            )
          ])

  -- GetUserByID
  unfoldable pub get_user_by_id : ℕ → Store D C → Answer UserRow
  get_user_by_id id s =
      if not s.persistent then failed "数据库未初始化" else sql.users.first_row (λ r. r.id == id) s.db

  -- GetUserByName
  unfoldable pub get_user_by_name : String → Store D C → Store D C × Answer UserRow
  get_user_by_name name s =
      if not s.persistent then (s, failed "数据库未初始化") else elim (cached_user redis name s) [
        | some u ↦ (s, found u)
        | none ↦ elim (sql.users.first_row (λ r. str_eq r.user_name name) s.db) [
          | found u ↦ (on_cache (redis.set_user (user_key name) u half_hour) s, found u)
          | not_found ↦ (s, not_found)
          | failed e ↦ (s, failed e)
        ]
      ]

  -- the branch of UpdateUserStatus for a number
  update_status_by_id : ℕ → ℕ → Store D C → Store D C × Error
  unfolding get_user_by_id
  update_status_by_id id status s =
      let (d, e, n) =
        sql.users.update_rows (λ r. r.id == id) (λ r. record r { status = status }) s.db in
      let s' = with_db s d in
      elim e [
        | some x ↦ (s', some x)
        | none ↦ if n == 0 then (s', some record_not_found) else elim (get_user_by_id id s') [
          | found u ↦ (on_cache (redis.del (user_key u.user_name)) s', none)
          | not_found ↦ (s', none)
          | failed x ↦ (s', none)
        ]
      ]

  -- the branch of UpdateUserStatus for a name
  update_status_by_name : String → ℕ → Store D C → Store D C × Error
  update_status_by_name name status s =
      let (d, e, n) =
        sql.users.update_rows (λ r. str_eq r.user_name name) (λ r. record r { status = status })
          s.db in
      let s' = with_db s d in
      elim e [
        | some x ↦ (s', some x)
        | none ↦
            if n == 0
            then (s', some record_not_found)
            else (on_cache (redis.del (user_key name)) s', none)
      ]

  -- UpdateUserStatus
  unfoldable pub update_user_status : String → ℕ → Store D C → Store D C × Error
  unfolding update_status_by_id update_status_by_name
  update_user_status user_id status s =
      if not s.persistent
      then (s, some "数据库未初始化")
      else if is_empty user_id
      then (s, some "userID 为空")
      else elim (parse_uint user_id) [
        | some id ↦ update_status_by_id id status s
        | none ↦ update_status_by_name user_id status s
      ]

module _ {D C : Type 0} (sql : Database D) where
  -- SaveMessage
  unfoldable pub save_message_row : MessageRow → Store D C → Store D C × Error
  save_message_row msg s =
      if not s.persistent
      then (s, some "DB 未初始化")
      else (let (d, row, e) = sql.messages.insert msg s.db in (with_db s d, e))

  -- GetMessagesByChatID
  unfoldable pub get_messages_by_chat_id : String → ℤ → ℤ → Store D C → Answer (List MessageRow)
  get_messages_by_chat_id chat_id limit offset s =
      if not s.persistent
      then failed "DB 未初始化"
      else sql.messages.find_page (λ r. str_eq r.chat_id chat_id) "seq desc" (limit_clause limit)
          (limit_clause offset) s.db

  -- GetMessagesBySeq
  unfoldable pub get_messages_by_seq : String → ℕ → ℕ → Store D C → Answer (List MessageRow)
  get_messages_by_seq chat_id start_seq end_seq s =
      if not s.persistent
      then failed "database not initialized"
      else if not (leb start_seq end_seq)
      then found []
      else sql.messages.find_rows
          (λ r. str_eq r.chat_id chat_id && (leb start_seq r.seq && leb r.seq end_seq)) "seq asc"
          none s.db

  -- UpdateMessageStatus
  unfoldable pub update_message_status : String → ℕ → Store D C → Store D C × Error
  update_message_status id status s =
      if not s.persistent
      then (s, some "database not initialized")
      else if is_empty id
      then (s, some "serverMsgID is empty")
      else (let (d, e, n) =
            sql.messages.update_rows (λ r. str_eq r.server_msg_id id)
              (λ r. record r { status = status }) s.db in
          (with_db s d, elim e [ some x ↦ some x | none ↦ changed_some n ]))

  -- GetLatestSeq
  unfoldable pub get_latest_seq : String → Store D C → Answer ℕ
  get_latest_seq chat_id s =
      if not s.persistent
      then failed "database not initialized"
      else elim (sql.messages.take_ordered (λ r. str_eq r.chat_id chat_id) "seq desc" s.db) [
        | found r ↦ found r.seq
        | not_found ↦ found 0
        | failed e ↦ failed e
      ]

  -- SaveMessageRecipient
  unfoldable pub save_message_recipient : RecipientRow → Store D C → Store D C × Error
  save_message_recipient recipient s =
      if not s.persistent
      then (s, some "database not initialized")
      else (let (d, row, e) = sql.recipients.insert recipient s.db in (with_db s d, e))

  -- the statement of the two marks
  abbrev mark_recipient :
      (RecipientRow → RecipientRow) → String → String → Store D C → Store D C × Error
  mark_recipient f id to s =
      if not s.persistent
      then (s, some "database not initialized")
      else (let (d, e, n) =
            sql.recipients.update_rows (λ r. str_eq r.server_msg_id id && str_eq r.to_user to) f
              s.db in
          (with_db s d, elim e [ some x ↦ some x | none ↦ changed_some n ]))

  -- MarkRecipientDelivered
  unfoldable pub mark_recipient_delivered : String → String → ℕ → Store D C → Store D C × Error
  mark_recipient_delivered id to now =
      mark_recipient (λ r. record r { status = 1; acked_at = some now; last_send_at = some now }) id
        to

  -- MarkRecipientRead
  unfoldable pub mark_recipient_read : String → String → ℕ → Store D C → Store D C × Error
  mark_recipient_read id to now =
      mark_recipient (λ r. record r { status = 2; read_at = some now; acked_at = some now }) id to

  -- ListPendingByUser
  unfoldable pub list_pending_by_user : String → ℤ → Store D C → Answer (List RecipientRow)
  list_pending_by_user to limit s =
      if not s.persistent
      then failed "database not initialized"
      else sql.recipients.find_rows (λ r. str_eq r.to_user to && (r.status == 0)) "id asc"
          (limit_clause limit) s.db
