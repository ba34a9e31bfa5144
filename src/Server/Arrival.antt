-- ===== src/Server/Arrival.antt =====
-- A user comes online while a message waits for him: the queue that his arrival fills, and the worker that empties it.
use h_go.Base.{
  ℕ, suc, put, subst, ◌+◌, ◌≤◌, String, ◌≡◌, refl, ap, sym, ◌∙◌, true, false, some, List, [], ◌∷◌,
  arith, eq_iff, str_eq, Dict, get, contains, length, All, is_some, Option-cases, Bool-cases, inl,
  inr, pos, cut, get-put_self,
}
use h_go.Text.Trim.{is_empty}
use h_go.Protocol.{Message}
use h_go.Storage.{Database, Redis}
use h_go.Store.{Store, DeliveryEntry, Deliveries}
use h_go.Store.Deliveries.{entry, is_open}
use h_go.Store.Delivery.Pending.{IsKeyed, is_open_entry}
use h_go.Store.Retry.{scan_user, is_unread, list_pending_server_msg_ids_by_user}
use h_go.Worker.{queue_capacity, deliver_message, enqueue_all, enqueue_pending_for_user}
use h_go.Worker.Recovering.{contains-enqueue_all}
use h_go.Worker.Loop.{Round, work, Among, work-delivered}
use h_go.Server.{Server, OnlineInfo, senders, register_online, enqueue_pending}

contains-scan_user :
    (id t : String) (e : DeliveryEntry) (d : Deliveries)
    → entry id t d ≡ some e
    → is_unread e ≡ true
    → contains id (scan_user t d) ≡ true
unfolding scan_user get
contains-scan_user id t e [] there unread = absurd (ground arith)
contains-scan_user id t e ((i, m) ∷ d) there unread = elim (Bool-cases (str_eq i id)) [
  | inl same ↦ ground (arith, eq_iff i id)
  | inr other ↦
      (let rest = contains-scan_user id t e d (ground arith) unread in
        elim (Option-cases (get t m)) [
          | inl missing ↦ ground arith
          | inr (x, found) ↦ ground arith
        ])
]

cut_short : (n : ℕ) (xs : List String) → length xs ≤ n → cut (pos n) xs ≡ xs
unfolding cut
cut_short n xs h = ground arith

get-senders :
    {Conn : Type 0} (t : String) (i : OnlineInfo Conn) (m : Dict (OnlineInfo Conn))
    → get t m ≡ some i
    → get t (senders m) ≡ some (some i.sender)
unfolding senders get
get-senders t i [] h = absurd (ground arith)
get-senders t i ((name, info) ∷ rest) h = ground (arith, get-senders t i rest)

-- Rounds of the worker at some times, while the users online stay the same.
abbrev pub rounds_at : {D C Conn : Type 0} → Server D C Conn → List (String → ℕ) → List (Round Conn)
rounds_at v [] = []
rounds_at v (now ∷ times) = record { online = senders v.online_map; now = now } ∷ rounds_at v times

length-rounds_at :
    {D C Conn : Type 0} (v : Server D C Conn) (times : List (String → ℕ))
    → length (rounds_at v times) ≡ length times
length-rounds_at v [] = refl
length-rounds_at v (now ∷ times) = ap suc (length-rounds_at v times)

online_throughout :
    {D C Conn : Type 0} (v : Server D C Conn) (t : String) (c : Conn)
    → get t (senders v.online_map) ≡ some (some c)
    → (times : List (String → ℕ)) → All (λ r. get t r.online ≡ some (some c)) (rounds_at v times)
online_throughout v t c h [] = tt
online_throughout v t c h (now ∷ times) = (h, online_throughout v t c h times)

module _ {D C : Type 0} (sql : Database D) (redis : Redis C) where
  list_pending_memory :
      (t : String) (s : Store D C)
      → is_empty t ≡ false
      → s.persistent ≡ false
      → length (scan_user t s.deliveries) ≤ 500
      → list_pending_server_msg_ids_by_user sql redis t (pos 500) s ≡ (s, scan_user t s.deliveries)
  unfolding list_pending_server_msg_ids_by_user
  list_pending_memory t s named memory few =
      ground (arith, cut_short 500 (scan_user t s.deliveries) few)

module _ {D C Conn : Type 0} (sql : Database D) (redis : Redis C) where
  -- The first two calls of Online.
  abbrev pub arrived : String → String → Conn → Server D C Conn → Server D C Conn
  arrived t addr c v = enqueue_pending sql redis t (pos 500) (register_online t c addr v)

  -- What the worker and the store are after an arrival.
  enqueue_pending-memory :
      (t addr : String) (c : Conn) (v : Server D C Conn)
      → is_empty t ≡ false
      → v.logic.store.persistent ≡ false
      → length (scan_user t v.logic.store.deliveries) ≤ 500
      → let v' = arrived t addr c v in
        (v'.worker ≡ enqueue_all (scan_user t v.logic.store.deliveries) v.worker)
        × (v'.logic.store ≡ v.logic.store)
        × (get t (senders v'.online_map) ≡ some (some c))
  unfolding enqueue_pending enqueue_pending_for_user register_online
  enqueue_pending-memory t addr c v named memory few =
      let i : OnlineInfo Conn = record { sender = c; addr = addr } in
      let listed = list_pending_memory sql redis t v.logic.store named memory few in
      (
        ground (arith, listed),
        ground (arith, listed),
        ground (arith, get-senders t i (put t i v.online_map) (get-put_self t i v.online_map)),
      )

  -- A message that waits for a user reaches him when he comes online. Where the store keeps the message with an open delivery to
  -- him, his arrival puts its id on the channel, and once the worker has made as many rounds as there are ids on the
  -- channel then, it has called SendJSON on his connection with the message addressed to him. There is no database,
  -- each user has one entry for a message, neither name is empty, at most 500 messages wait for him, the
  -- channel has room for them, and the id is in flight only if it is already on the channel.
  pub arrival-delivered :
      (id t addr : String) (c : Conn) (msg : Message) (e : DeliveryEntry) (v : Server D C Conn)
      (times : List (String → ℕ))
      → is_empty id ≡ false
      → is_empty t ≡ false
      → v.logic.store.persistent ≡ false
      → IsKeyed v.logic.store.deliveries
      → get id v.logic.store.messages ≡ some msg
      → entry id t v.logic.store.deliveries ≡ some e
      → is_open e ≡ true
      → length (scan_user t v.logic.store.deliveries) ≤ 500
      → length v.worker.deliver_queue + 500 ≤ queue_capacity
      → is_some (get id v.worker.deliver_in_flight) ≡ contains id v.worker.deliver_queue
      → length (arrived t addr c v).worker.deliver_queue ≤ length times
      → (let v' = arrived t addr c v in
          Among
            (c, deliver_message id msg t)
            (work sql redis (rounds_at v' times) v'.worker v'.logic.store).0)
  arrival-delivered id t addr c msg e v times hid named memory keyed there waiting opened few room
        tracked enough =
      let s = v.logic.store in
      let v' = arrived t addr c v in
      let (worker, store, here) = enqueue_pending-memory t addr c v named memory few in
      let listed = contains-scan_user id t e s.deliveries waiting (ground arith) in
      let queued : contains id v'.worker.deliver_queue ≡ true =
        ap (λ w. contains id w.deliver_queue) worker
        ∙ contains-enqueue_all id (scan_user t s.deliveries) v.worker hid tracked
            (omega (arith, few, room)) (ground (arith, listed)) in
      work-delivered sql redis id t msg c named (rounds_at v' times) v'.worker v'.logic.store
        (ap (λ x. x.persistent) store ∙ memory)
        (subst (λ x. IsKeyed x.deliveries) (sym store) keyed)
        (ap (λ x. get id x.messages) store ∙ there)
        (ap (λ x. is_open_entry (entry id t x.deliveries)) store ∙ ground arith) queued
        (ground (arith, length-rounds_at v' times, enough)) (online_throughout v' t c here times)
