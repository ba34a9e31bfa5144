-- ===== src/Server/Stats.antt =====
-- internal/server/stats.go and SnapshotStatsText of api.go.
use h_go.Base.{
  ℕ, ◌+◌, ◌-◌, ◌%◌, ◌^◌, String, List, [], ◌∷◌, length, ltb, if◌then◌else◌, keys, second, cat,
}
use h_go.Text.Decimal.{show}
use h_go.Storage.{Database}
use h_go.Store.Delivery.{DeliveryStatusStats, delivery_stats}
use h_go.Outside.{Outside}
use h_go.Server.{Server}

-- StatsSnapshot; `messages` is the sum that MsgPerSec divides by the uptime, a float64. DeliverQueueLen is never set.
pub record StatsSnapshot : Type 0 where
  pub start_at : ℕ
  pub uptime : ℕ
  pub online_users : ℕ
  pub active_conn : ℕ
  pub total_connections : ℕ
  pub rejected_conn : ℕ
  pub inbound_messages : ℕ
  pub outbound_messages : ℕ
  pub messages : ℕ
  pub delivery : DeliveryStatusStats

-- The lines of the text, joined.
join_lines : List String → String
join_lines [] = ""
join_lines (l ∷ ls) = cat l (join_lines ls)

module _ {D C Conn : Type 0} (sql : Database D) where
  -- SnapshotStats, at a time that is not before the start
  unfoldable pub snapshot_stats : ℕ → Server D C Conn → StatsSnapshot
  snapshot_stats now s =
      let since = now - s.start_at in
      record {
        start_at = s.start_at;
        uptime = if ltb since second then second else since;
        online_users = length (keys s.online_map);
        active_conn = s.active_conn;
        total_connections = s.total_connections;
        rejected_conn = s.rejected_conn;
        inbound_messages = s.inbound_messages;
        outbound_messages = s.outbound_messages;
        messages = (s.inbound_messages + s.outbound_messages) % 2 ^ 64;
        delivery = delivery_stats sql s.logic.store;
      }

  -- SnapshotStatsText
  unfoldable pub snapshot_stats_text : Outside → ℕ → Server D C Conn → String
  unfolding snapshot_stats join_lines
  snapshot_stats_text o now s =
      let st = snapshot_stats now s in
      join_lines (
        "Server Stats\nstart_at: "
        ∷ o.format_start st.start_at
        ∷ "\nuptime: "
        ∷ o.format_uptime st.uptime
        ∷ "\nonline_users: "
        ∷ show st.online_users
        ∷ "\nactive_conn: "
        ∷ show st.active_conn
        ∷ "\ntotal_conn: "
        ∷ show st.total_connections
        ∷ "\nrejected_conn: "
        ∷ show st.rejected_conn
        ∷ "\ninbound_msgs: "
        ∷ show st.inbound_messages
        ∷ "\noutbound_msgs: "
        ∷ show st.outbound_messages
        ∷ "\nthroughput: "
        ∷ o.format_rate st.messages st.uptime
        ∷ " msg/s\ndelivery_pending: "
        ∷ show st.delivery.pending
        ∷ "\ndelivery_delivered: "
        ∷ show st.delivery.delivered
        ∷ "\ndelivery_read: "
        ∷ show st.delivery.read
        ∷ "\ndead_letter: "
        ∷ show st.delivery.dead
        ∷ [])
