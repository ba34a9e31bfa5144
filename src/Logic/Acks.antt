-- ===== src/Logic/Acks.antt =====
-- What the acknowledgements of a client change.
use h_go.Base.{
  ℕ, String, ◌≡◌, ap, ◌∙◌, not, ◌&&◌, ◌||◌, arith, eq_iff, str_eq, if◌then◌else◌, Bool-cases, inl,
  inr,
}
use h_go.Text.Trim.{is_empty}
use h_go.Storage.{Database, Redis}
use h_go.Store.Deliveries.{entry, map_entry, update_entry, entry-update_entry}
use h_go.Store.Delivery.{ack_entry, read_entry}
use h_go.Store.Delivery.Marks.{deliveries-mark_delivery_acked, deliveries-mark_delivery_read}
use h_go.Logic.{LogicService, handle_deliver_ack, handle_read_ack}

module _ {D C : Type 0} (sql : Database D) (redis : Redis C) (username id : String) (now : ℕ)
    (l : LogicService D C) (i t : String) where
  -- HandleDeliverAck marks the delivery of the message to the user as acknowledged, if there is one and neither text is
  -- empty, and changes no other delivery, whatever the database answers.
  pub entry-handle_deliver_ack :
      entry i t (handle_deliver_ack sql redis username id now l).store.deliveries ≡ (
        if not (is_empty username) && not (is_empty id) && str_eq id i && str_eq username t
        then map_entry ack_entry (entry i t l.store.deliveries)
        else entry i t l.store.deliveries)
  unfolding handle_deliver_ack
  entry-handle_deliver_ack = elim (Bool-cases (is_empty username || is_empty id)) [
    | inl blank ↦ ground arith
    | inr named ↦
        (let marked : (handle_deliver_ack sql redis username id now l).store.deliveries
              ≡ update_entry ack_entry id username l.store.deliveries =
            ground (arith, deliveries-mark_delivery_acked sql redis id username now l.store) in
          ap (entry i t) marked
          ∙ entry-update_entry ack_entry id username i t l.store.deliveries
          ∙ ground (arith, eq_iff id i, eq_iff username t))
  ]

  -- HandleReadAck marks it as acknowledged and read, in the same way.
  pub entry-handle_read_ack :
      entry i t (handle_read_ack sql redis username id now l).store.deliveries ≡ (
        if not (is_empty username) && not (is_empty id) && str_eq id i && str_eq username t
        then map_entry read_entry (entry i t l.store.deliveries)
        else entry i t l.store.deliveries)
  unfolding handle_read_ack
  entry-handle_read_ack = elim (Bool-cases (is_empty username || is_empty id)) [
    | inl blank ↦ ground arith
    | inr named ↦
        (let marked : (handle_read_ack sql redis username id now l).store.deliveries
              ≡ update_entry read_entry id username l.store.deliveries =
            ground (arith, deliveries-mark_delivery_read sql redis id username now l.store) in
          ap (entry i t) marked
          ∙ entry-update_entry read_entry id username i t l.store.deliveries
          ∙ ground (arith, eq_iff id i, eq_iff username t))
  ]
