-- ===== src/Store/Delivery.antt =====
-- internal/store/delivery.go: who is still to receive a message, and the states of a delivery.
pub mod Stats
pub mod Marks
pub mod Pending
use h_go.Base.{
  ℕ, ◌+◌, ◌/◌, String, Bool, true, false, not, ◌&&◌, ◌||◌, Option, none, some, List, [], ◌∷◌, map,
  null, str_eq, ltb, ◌==◌, if◌then◌else◌, get, Dict, second,
}
use h_go.Text.Trim.{is_empty}
use h_go.Storage.{
  RecipientRow, found, not_found, failed, Database, Redis, recipients_key, pending_user_key,
}
use h_go.Store.{DeliveryEntry, Deliveries, Store, Error, on_cache, with_db}
use h_go.Store.Deliveries.{save_delivery_unsafe, update_entry, is_open}
use h_go.Store.Messages.{new_recipient, save_deliveries}

-- The loop of GetRecipients over the entries of one message.
unfoldable pub open_recipients : Dict DeliveryEntry → List String
open_recipients [] = []
open_recipients ((to, e) ∷ m) =
    let rest = open_recipients m in if is_open e then to ∷ rest else rest

-- MarkDeliveryAcked and MarkDeliveryRead on an entry.
abbrev pub ack_entry : DeliveryEntry → DeliveryEntry
ack_entry e = record e { acked = true }

abbrev pub read_entry : DeliveryEntry → DeliveryEntry
read_entry e = record e { acked = true; read = true }

abbrev pub sent_entry : ℕ → DeliveryEntry → DeliveryEntry
sent_entry now e = record e { retry = e.retry + 1; last_sent = now / second }

-- `for _, row := range rows { s.saveDeliveryUnsafe(row.ServerMsgID, row.ToUser) }`
unfoldable pub save_rows : List RecipientRow → Deliveries → Deliveries
save_rows [] d = d
save_rows (r ∷ rows) d = save_rows rows (save_delivery_unsafe r.server_msg_id r.to_user d)

abbrev pub to_users : List RecipientRow → List String
to_users = map (λ r. r.to_user)

-- `server_msg_id = ? AND to_user = ?`
abbrev pub is_recipient : String → String → RecipientRow → Bool
is_recipient id to r = str_eq r.server_msg_id id && str_eq r.to_user to

abbrev pub error_text : Error → String
error_text none = ""
error_text (some e) = e

abbrev pub pending_in : String → Deliveries → List String
pending_in id d = elim (get id d) [ none ↦ [] | some m ↦ open_recipients m ]

abbrev pub forget_delivery : {C : Type 0} → Redis C → String → String → C → C
forget_delivery redis id to c = redis.del (pending_user_key to) (redis.del (recipients_key id) c)

module _ {D C : Type 0} where
  abbrev pub with_deliveries : Store D C → Deliveries → Store D C
  with_deliveries s d = record s { deliveries = d }

  abbrev pub change_entry :
      (DeliveryEntry → DeliveryEntry) → String → String → Store D C → Store D C
  change_entry f id to s = with_deliveries s (update_entry f id to s.deliveries)

  -- A value of the cache, if there is a cache and it has one.
  abbrev pub cached : Redis C → String → Store D C → Option (List String)
  cached redis key s = elim s.cache [ none ↦ none | some c ↦ redis.get_list key c ]

module _ {D C : Type 0} (sql : Database D) (redis : Redis C) where
  -- SaveDelivery
  unfoldable pub save_delivery : String → String → Store D C → Store D C × Error
  unfolding save_delivery_unsafe
  save_delivery id to s =
      if is_empty id || is_empty to
      then (s, none)
      else (let s' = with_deliveries s (save_delivery_unsafe id to s.deliveries) in
          if not s.persistent
          then (s', none)
          else (let (d, e) = sql.recipients.insert_ignore (new_recipient id to) s.db in
              elim e [
                | some x ↦ (with_db s' d, some x)
                | none ↦ (on_cache (forget_delivery redis id to) (with_db s' d), none)
              ]))

  -- GetRecipients
  unfoldable pub get_recipients : String → Store D C → Store D C × List String
  unfolding open_recipients save_deliveries save_rows
  get_recipients id s =
      let res = pending_in id s.deliveries in
      if not (null res) || not s.persistent
      then (s, res)
      else elim (cached redis (recipients_key id) s) [
        | some out ↦ (with_deliveries s (save_deliveries id out s.deliveries), out)
        | none ↦
            elim (sql.recipients.find_rows (λ r. str_eq r.server_msg_id id && (r.status == 0)) ""
              none s.db) [
                | not_found ↦ (s, [])
                | failed e ↦ (s, [])
                | found rows ↦
                    let s' = with_deliveries s (save_rows rows s.deliveries) in
                    let users = to_users rows in
                    if null users
                    then (s', users)
                    else (on_cache (redis.set_list (recipients_key id) users 5) s', users)
              ]
      ]

  -- MarkDeliverySent
  unfoldable pub mark_delivery_sent : String → String → Error → ℕ → Store D C → Store D C × Error
  unfolding update_entry
  mark_delivery_sent id to send_err now s =
      let s' = change_entry (sent_entry now) id to s in
      if not s.persistent || is_empty id || is_empty to
      then (s', none)
      else (let (d, e, n) =
            sql.recipients.update_rows (is_recipient id to)
              (λ r. record r {
                retry_count = r.retry_count + 1;
                last_send_at = some now;
                last_error = error_text send_err;
              })
              s.db in
          (with_db s' d, e))

  -- MarkDeliveryAcked
  unfoldable pub mark_delivery_acked : String → String → ℕ → Store D C → Store D C × Error
  unfolding update_entry
  mark_delivery_acked id to now s =
      let s' = change_entry ack_entry id to s in
      if not s.persistent
      then (s', none)
      else (let (d, e, n) =
            sql.recipients.update_rows (is_recipient id to)
              (λ r. record r {
                status = if ltb r.status 1 then 1 else r.status;
                acked_at = some now;
              })
              s.db in
          elim e [
            | some x ↦ (with_db s' d, some x)
            | none ↦ (on_cache (forget_delivery redis id to) (with_db s' d), none)
          ])

  -- MarkDeliveryRead
  unfoldable pub mark_delivery_read : String → String → ℕ → Store D C → Store D C × Error
  unfolding update_entry
  mark_delivery_read id to now s =
      let s' = change_entry read_entry id to s in
      if not s.persistent
      then (s', none)
      else (let (d, e, n) =
            sql.recipients.update_rows (is_recipient id to)
              (λ r. record r { status = 2; acked_at = some now; read_at = some now }) s.db in
          elim e [
            | some x ↦ (with_db s' d, some x)
            | none ↦ (on_cache (forget_delivery redis id to) (with_db s' d), none)
          ])

-- DeliveryStatusStats
pub record DeliveryStatusStats : Type 0 where
  pub pending : ℕ
  pub delivered : ℕ
  pub read : ℕ
  pub dead : ℕ

abbrev pub no_stats : DeliveryStatusStats
no_stats = record { pending = 0; delivered = 0; read = 0; dead = 0 }

-- The body of the two loops of DeliveryStats.
abbrev pub count_entry : DeliveryStatusStats → DeliveryEntry → DeliveryStatusStats
count_entry st e =
    if e.dead
    then record st { dead = st.dead + 1 }
    else if e.read
    then record st { read = st.read + 1 }
    else if e.acked
    then record st { delivered = st.delivered + 1 }
    else record st { pending = st.pending + 1 }

unfoldable pub count_entries : DeliveryStatusStats → Dict DeliveryEntry → DeliveryStatusStats
count_entries st [] = st
count_entries st ((to, e) ∷ m) = count_entries (count_entry st e) m

unfoldable pub count_messages : DeliveryStatusStats → Deliveries → DeliveryStatusStats
unfolding count_entries
count_messages st [] = st
count_messages st ((id, m) ∷ d) = count_messages (count_entries st m) d

-- The switch on the status of a counted group of rows.
unfoldable pub count_rows : DeliveryStatusStats → List (ℕ × ℕ) → DeliveryStatusStats
count_rows st [] = st
count_rows st ((status, count) ∷ rows) =
    count_rows
      (if status == 0
        then record st { pending = count }
        else if status == 1
        then record st { delivered = count }
        else if status == 2
        then record st { read = count }
        else if status == 3
        then record st { dead = count }
        else st)
      rows

-- DeliveryStats
unfoldable pub delivery_stats : {D C : Type 0} → Database D → Store D C → DeliveryStatusStats
unfolding count_messages count_rows
delivery_stats sql s =
    if not s.persistent
    then count_messages no_stats s.deliveries
    else count_rows no_stats (sql.count_by_status s.db)
