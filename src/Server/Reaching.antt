-- ===== src/Server/Reaching.antt =====
-- A message from its sender to a user who comes online later.
use h_go.Base.{
  ℕ, ◌+◌, ◌≤◌, String, ◌≡◌, ap, sym, ◌∙◌, subst, true, false, none, some, List, [], ◌∷◌, arith,
  eq_iff, get, contains, length, length-append, is_some, Bool-cases, inl, inr, refl,
}
use h_go.Text.Trim.{is_empty}
use h_go.Protocol.{Message}
use h_go.Storage.{Database, Redis}
use h_go.Store.Deliveries.{entry, fresh_entry, or_fresh}
use h_go.Store.Delivery.Pending.{IsKeyed}
use h_go.Store.Retry.{scan_user}
use h_go.Logic.{saved, Clock, process_send}
use h_go.Logic.Sending.{process_send-IsSaved}
use h_go.Logic.Memory.{process_send-IsKept}
use h_go.Worker.{Worker, queue_capacity, deliver_message, enqueue_server_msg}
use h_go.Worker.Recovering.{
  contains-snoc, is_dropped, queue-enqueue_server_msg, flying-enqueue_server_msg,
}
use h_go.Worker.Loop.{work, Among}
use h_go.Server.{Server, completed, recipients_of, handle_client_send, with_logic, enqueue}
use h_go.Server.Resend.{handle_client_send-saved}
use h_go.Server.Arrival.{arrived, rounds_at, arrival-delivered}

-- An id that is in flight only if it is on the channel still is after it was put there, and the channel is one longer at most.
enqueued_tracked :
    (id : String) (w : Worker)
    → is_empty id ≡ false
    → is_some (get id w.deliver_in_flight) ≡ contains id w.deliver_queue
    → length w.deliver_queue + 501 ≤ queue_capacity
    → is_some (get id (enqueue_server_msg id w).deliver_in_flight)
      ≡ contains id (enqueue_server_msg id w).deliver_queue
enqueued_tracked id w named tracked room =
    let queue = ap (contains id) (queue-enqueue_server_msg id w) in
    let flying = flying-enqueue_server_msg id id w in
    elim (Bool-cases (is_dropped id w)) [
      | inl old ↦ ground (arith, queue, flying)
      | inr new ↦ ground (arith, queue, flying, contains-snoc id id w.deliver_queue, eq_iff id id)
    ]

enqueued_length :
    (id : String) (w : Worker)
    → length w.deliver_queue + 501 ≤ queue_capacity
    → length (enqueue_server_msg id w).deliver_queue + 500 ≤ queue_capacity
enqueued_length id w room =
    ground
      (arith, ap length (queue-enqueue_server_msg id w), length-append w.deliver_queue (id ∷ []))

module _ {D C Conn : Type 0} (sql : Database D) (redis : Redis C) where
  -- A message that the server saves for a user who is not online reaches him when he comes online: once the request was saved with him
  -- among its recipients, his arrival and as many rounds of the worker as there are ids on the channel then make the call
  -- of SendJSON on his connection with the saved message, addressed to him. There is no database, each user has one entry
  -- for a message, the user's name is not empty, the id of the message is new, at most 500 messages wait for him, and the
  -- channel has room for them and one more.
  pub handle_client_send-arrival :
      (clock : Clock) (name : String) (req m : Message) (v : Server D C Conn) (t addr : String)
      (c : Conn) (times : List (String → ℕ))
      → (process_send sql redis
          (λ n. clock (n + 1))
          (completed name (clock 0) req)
          (recipients_of name (completed name (clock 0) req) v)
          v.logic).1
        ≡ saved m
      → contains t (recipients_of name (completed name (clock 0) req) v) ≡ true
      → is_empty t ≡ false
      → v.logic.store.persistent ≡ false
      → IsKeyed v.logic.store.deliveries
      → entry m.server_msg_id t v.logic.store.deliveries ≡ none
      → is_some (get m.server_msg_id v.worker.deliver_in_flight)
        ≡ contains m.server_msg_id v.worker.deliver_queue
      → length v.worker.deliver_queue + 501 ≤ queue_capacity
      → length
          (scan_user t (handle_client_send sql redis clock name req v).0.logic.store.deliveries)
        ≤ 500
      → length
          (arrived sql redis t addr c
            (handle_client_send sql redis clock name req v).0).worker.deliver_queue
        ≤ length times
      → (let v' = arrived sql redis t addr c (handle_client_send sql redis clock name req v).0 in
          Among
            (c, deliver_message m.server_msg_id m t)
            (work sql redis (rounds_at v' times) v'.worker v'.logic.store).0)
  handle_client_send-arrival clock name req m v t addr c times h among named memory keyed new
        tracked room few enough =
      let r = completed name (clock 0) req in
      let to = recipients_of name r v in
      let clock' : Clock = λ n. clock (n + 1) in
      let l = (process_send sql redis clock' r to v.logic).0 in
      let v1 = enqueue m.server_msg_id (with_logic v l) in
      let is = process_send-IsSaved sql redis clock' r to v.logic m h in
      let kept = process_send-IsKept sql redis clock' r to v.logic m h memory keyed in
      let same : v1 ≡ (handle_client_send sql redis clock name req v).0 =
        sym (ap (λ p. p.0) (handle_client_send-saved sql redis clock name req v m h)) in
      let waiting : entry m.server_msg_id t l.store.deliveries ≡ some (fresh_entry t) =
        is.delivered_to t among ∙ ap (or_fresh t) new in
      subst
        (λ (x : Server D C Conn).
          length (scan_user t x.logic.store.deliveries) ≤ 500
          → length (arrived sql redis t addr c x).worker.deliver_queue ≤ length times
          → (let v' = arrived sql redis t addr c x in
              Among (c, deliver_message m.server_msg_id m t)
                (work sql redis (rounds_at v' times) v'.worker v'.logic.store).0))
        same
        (λ few' enough'.
          arrival-delivered sql redis m.server_msg_id t addr c m (fresh_entry t) v1 times kept.named
            named kept.memory kept.keyed kept.stored waiting refl few'
            (enqueued_length m.server_msg_id v.worker room)
            (enqueued_tracked m.server_msg_id v.worker kept.named tracked room) enough')
        few enough
