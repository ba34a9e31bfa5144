-- ===== src/Store/Delivery/Stats.antt =====
-- What the four numbers of DeliveryStats count.
use h_go.Base.{
  ℕ, ◌+◌, ◌≡◌, refl, Bool, false, not, ◌&&◌, List, [], ◌∷◌, ◌++◌, arith, select, length, Dict,
}
use h_go.Storage.{Database}
use h_go.Store.{DeliveryEntry, Deliveries, Store}
use h_go.Store.Deliveries.{is_open}
use h_go.Store.Delivery.{
  DeliveryStatusStats, no_stats, count_entry, count_entries, count_messages, delivery_stats,
}

-- The entries of one message, and those of all messages.
abbrev values : Dict DeliveryEntry → List DeliveryEntry
values [] = []
values ((to, e) ∷ m) = e ∷ values m

abbrev pub all_entries : Deliveries → List DeliveryEntry
all_entries [] = []
all_entries ((id, m) ∷ d) = values m ++ all_entries d

abbrev pub how_many : (DeliveryEntry → Bool) → List DeliveryEntry → ℕ
how_many p es = length (select p es)

-- A delivery counts under the last thing that happened to it, with dead before read before acknowledged.
abbrev pub is_read : DeliveryEntry → Bool
is_read e = e.read && not e.dead

abbrev pub is_delivered : DeliveryEntry → Bool
is_delivered e = e.acked && not e.read && not e.dead

abbrev pub is_dead : DeliveryEntry → Bool
is_dead e = e.dead

-- `st` is `st0` with the entries of the list counted in.
abbrev Counts : DeliveryStatusStats → List DeliveryEntry → DeliveryStatusStats → Type 0
Counts st0 es st =
    (st.pending ≡ st0.pending + how_many is_open es)
    × (st.delivered ≡ st0.delivered + how_many is_delivered es)
    × (st.read ≡ st0.read + how_many is_read es)
    × (st.dead ≡ st0.dead + how_many is_dead es)

how_many-append :
    (p : DeliveryEntry → Bool) (xs ys : List DeliveryEntry)
    → how_many p (xs ++ ys) ≡ how_many p xs + how_many p ys
how_many-append p [] ys = omega arith
how_many-append p (x ∷ xs) ys = ground (arith, how_many-append p xs ys)

count_entries-Counts :
    (st : DeliveryStatusStats) (m : Dict DeliveryEntry) → Counts st (values m) (count_entries st m)
unfolding count_entries
count_entries-Counts st [] = ground arith
count_entries-Counts st ((to, e) ∷ m) = ground (arith, count_entries-Counts (count_entry st e) m)

count_messages-Counts :
    (st : DeliveryStatusStats) (d : Deliveries) → Counts st (all_entries d) (count_messages st d)
unfolding count_messages
count_messages-Counts st [] = ground arith
count_messages-Counts st ((id, m) ∷ d) = ground (
  arith,
  count_entries-Counts st m,
  count_messages-Counts (count_entries st m) d,
  how_many-append is_open (values m) (all_entries d),
  how_many-append is_delivered (values m) (all_entries d),
  how_many-append is_read (values m) (all_entries d),
  how_many-append is_dead (values m) (all_entries d),
)

how_many-all :
    (es : List DeliveryEntry)
    → how_many is_open es + how_many is_delivered es + how_many is_read es + how_many is_dead es
      ≡ length es
how_many-all [] = refl
how_many-all (e ∷ es) = ground (arith, how_many-all es)

module _ {D C : Type 0} (sql : Database D) (s : Store D C) where
  -- Without a database the numbers of DeliveryStats are those of the open, the acknowledged and not read, the read and
  -- the dead deliveries, where a dead one counts only as dead; each delivery is counted once.
  pub delivery_stats-counts :
      s.persistent ≡ false
      → let st = delivery_stats sql s in
        let es = all_entries s.deliveries in
        (st.pending ≡ how_many is_open es)
        × (st.delivered ≡ how_many is_delivered es)
        × (st.read ≡ how_many is_read es)
        × (st.dead ≡ how_many is_dead es)
        × (st.pending + st.delivered + st.read + st.dead ≡ length es)
  unfolding delivery_stats
  delivery_stats-counts h =
      ground (
        arith,
        count_messages-Counts no_stats s.deliveries,
        how_many-all (all_entries s.deliveries),
      )
