-- ===== src/Store/Delivery/Marks.antt =====
-- What the marks do to the entries in memory, whether or not there is a database and whatever it answers.
use h_go.Base.{ℕ, String, ◌≡◌, arith}
use h_go.Storage.{Database, Redis}
use h_go.Store.{Store, Error}
use h_go.Store.Deliveries.{update_entry}
use h_go.Store.Delivery.{
  ack_entry, read_entry, sent_entry, mark_delivery_sent, mark_delivery_acked, mark_delivery_read,
}

module _ {D C : Type 0} (sql : Database D) (redis : Redis C) (id to : String) (now : ℕ)
    (s : Store D C) where
  pub deliveries-mark_delivery_sent :
      (e : Error)
      → (mark_delivery_sent sql redis id to e now s).0.deliveries
        ≡ update_entry (sent_entry now) id to s.deliveries
  unfolding mark_delivery_sent
  deliveries-mark_delivery_sent e = ground arith

  pub deliveries-mark_delivery_acked :
      (mark_delivery_acked sql redis id to now s).0.deliveries
      ≡ update_entry ack_entry id to s.deliveries
  unfolding mark_delivery_acked
  deliveries-mark_delivery_acked = ground arith

  pub deliveries-mark_delivery_read :
      (mark_delivery_read sql redis id to now s).0.deliveries
      ≡ update_entry read_entry id to s.deliveries
  unfolding mark_delivery_read
  deliveries-mark_delivery_read = ground arith
