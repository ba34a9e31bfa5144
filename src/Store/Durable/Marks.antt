-- ===== src/Store/Durable/Marks.antt =====
-- The marks of a delivery, in memory and in the database.
use h_go.Base.{
  ℕ, ◌+◌, String, ◌≡◌, refl, sym, ◌∙◌, subst, none, Option-cases, true, ◌&&◌, ◌||◌, ltb,
  if◌then◌else◌, some, arith, eq_iff, str_eq, Bool-cases, inl, inr,
}
use h_go.Text.Trim.{is_empty}
use h_go.Storage.{RecipientRow, found, Database, Redis}
use h_go.Store.{Store, DeliveryEntry, Error}
use h_go.Store.Deliveries.{update_entry}
use h_go.Store.Delivery.{
  is_recipient, error_text, ack_entry, read_entry, sent_entry, mark_delivery_sent,
  mark_delivery_acked, mark_delivery_read,
}
use h_go.Store.Delivery.Marks.{
  deliveries-mark_delivery_sent, deliveries-mark_delivery_acked, deliveries-mark_delivery_read,
}
use h_go.Store.Durable.{row_of, KeepsKeys, IsTable, HasKeys, Agrees, IsDurable}
use h_go.Store.Durable.Updates.{kept-IsDurable, updated-IsDurable, update_rows-HasKeys}

-- What each mark does to a row.
abbrev pub sent_row : Error → ℕ → RecipientRow → RecipientRow
sent_row e now r = record r {
  retry_count = r.retry_count + 1;
  last_send_at = some now;
  last_error = error_text e;
}

abbrev pub acked_row : ℕ → RecipientRow → RecipientRow
acked_row now r = record r { status = if ltb r.status 1 then 1 else r.status; acked_at = some now }

abbrev pub read_row : ℕ → RecipientRow → RecipientRow
read_row now r = record r { status = 2; acked_at = some now; read_at = some now }

-- A store with its database: the deliveries in memory agree with their rows, which have keys.
pub record IsSound {D C : Type 0} (sql : Database D) (s : Store D C) : Type 0 where
  pub persistent : s.persistent ≡ true
  pub keys : HasKeys sql s.db
  pub durable : IsDurable sql s

sent-KeepsKeys : (e : Error) (now : ℕ) → KeepsKeys (sent_row e now)
sent-KeepsKeys e now = record { id = λ r. refl; server_msg_id = λ r. refl; to_user = λ r. refl }

acked-KeepsKeys : (now : ℕ) → KeepsKeys (acked_row now)
acked-KeepsKeys now = record { id = λ r. refl; server_msg_id = λ r. refl; to_user = λ r. refl }

read-KeepsKeys : (now : ℕ) → KeepsKeys (read_row now)
read-KeepsKeys now = record { id = λ r. refl; server_msg_id = λ r. refl; to_user = λ r. refl }

-- The test of a mark is passed by the row of its delivery alone.
pub is_recipient-only :
    {D : Type 0} (sql : Database D) (law : IsTable sql) (d : D) (id to i t : String)
    (r : RecipientRow)
    → row_of sql i t d ≡ found r
    → is_recipient id to r ≡ (str_eq id i && str_eq to t)
is_recipient-only sql law d id to i t r h =
    let m = law.matches i t d r h in
    ground (
      arith,
      m,
      eq_iff r.server_msg_id i,
      eq_iff r.to_user t,
      eq_iff r.server_msg_id id,
      eq_iff r.to_user to,
      eq_iff id i,
      eq_iff to t,
    )

module _ {D C : Type 0} (sql : Database D) (redis : Redis C) (law : IsTable sql) (id to : String)
    (now : ℕ) (s : Store D C) (sound : IsSound sql s) where
  -- an update of the rows of the delivery
  updated-IsSound :
      (s' : Store D C) (f : DeliveryEntry → DeliveryEntry) (g : RecipientRow → RecipientRow)
      → s'.persistent ≡ s.persistent
      → s'.deliveries ≡ update_entry f id to s.deliveries
      → s'.db ≡ (sql.recipients.update_rows (is_recipient id to) g s.db).0
      → (sql.recipients.update_rows (is_recipient id to) g s.db).1 ≡ none
      → KeepsKeys g
      → ((e : DeliveryEntry) (r : RecipientRow) → Agrees e r → Agrees (f e) (g r))
      → IsSound sql s'
  updated-IsSound s' f g p m d ok keeps step = record {
    persistent = p ∙ sound.persistent;
    keys =
        subst (HasKeys sql) (sym d)
          (update_rows-HasKeys sql law (is_recipient id to) g s.db keeps ok sound.keys);
    durable =
        updated-IsDurable sql s s' f id to m (is_recipient id to) g law d ok keeps
          (λ i t r row. is_recipient-only sql law s.db id to i t r row)
          (λ e r there row agrees. step e r agrees) sound.durable;
  }

  pub mark_delivery_acked-IsSound :
      (mark_delivery_acked sql redis id to now s).1 ≡ none
      → IsSound sql (mark_delivery_acked sql redis id to now s).0
  unfolding mark_delivery_acked
  mark_delivery_acked-IsSound h =
      let e = (sql.recipients.update_rows (is_recipient id to) (acked_row now) s.db).1 in
      let ok : e ≡ none = ground (arith, sound.persistent, Option-cases e) in
      updated-IsSound (mark_delivery_acked sql redis id to now s).0 ack_entry (acked_row now)
        (ground (arith, sound.persistent)) (deliveries-mark_delivery_acked sql redis id to now s)
        (ground (arith, sound.persistent, ok)) ok (acked-KeepsKeys now)
        (λ e r a. record { openness = ground arith; attempts = a.attempts })

  pub mark_delivery_read-IsSound :
      (mark_delivery_read sql redis id to now s).1 ≡ none
      → IsSound sql (mark_delivery_read sql redis id to now s).0
  unfolding mark_delivery_read
  mark_delivery_read-IsSound h =
      let e = (sql.recipients.update_rows (is_recipient id to) (read_row now) s.db).1 in
      let ok : e ≡ none = ground (arith, sound.persistent, Option-cases e) in
      updated-IsSound (mark_delivery_read sql redis id to now s).0 read_entry (read_row now)
        (ground (arith, sound.persistent)) (deliveries-mark_delivery_read sql redis id to now s)
        (ground (arith, sound.persistent, ok)) ok (read-KeepsKeys now)
        (λ e r a. record { openness = ground arith; attempts = a.attempts })

  pub mark_delivery_sent-IsSound :
      (err : Error)
      → (mark_delivery_sent sql redis id to err now s).1 ≡ none
      → IsSound sql (mark_delivery_sent sql redis id to err now s).0
  unfolding mark_delivery_sent
  mark_delivery_sent-IsSound err h =
      let s' = (mark_delivery_sent sql redis id to err now s).0 in
      let memory = deliveries-mark_delivery_sent sql redis id to now s err in
      elim (Bool-cases (is_empty id || is_empty to)) [
        | inl blank ↦
            (let same : s'.db ≡ s.db = ground arith in
              record {
                persistent = ground (arith, sound.persistent);
                keys = subst (HasKeys sql) (sym same) sound.keys;
                durable =
                    kept-IsDurable sql s s' (sent_entry now) id to memory same
                      (λ e r there row a. record {
                        openness = a.openness;
                        attempts = ground (arith, a.attempts);
                      })
                      sound.durable;
              })
        | inr named ↦
            updated-IsSound s' (sent_entry now) (sent_row err now)
              (ground (arith, sound.persistent)) memory (ground (arith, sound.persistent))
              (ground (arith, sound.persistent)) (sent-KeepsKeys err now)
              (λ e r a. record { openness = a.openness; attempts = ground (arith, a.attempts) })
      ]
