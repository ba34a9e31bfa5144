-- ===== src/Worker.antt =====
-- internal/delivery/worker.go: the queue of message ids, the set of ids in flight, and the delivery of one
-- message.
mod Tests
pub mod Queue
pub mod Deliver
pub mod Calls
pub mod Progress
pub mod Recovering
pub mod Loop
pub mod Sparing
use h_go.Base.{
  ℕ, zero, suc, String, Bool, true, false, not, ◌&&◌, Option, none, some, List, [], ◌∷◌, ◌++◌, ltb,
  length, contains, get, put, remove, is_some, Dict, ℤ, if◌then◌else◌, str_eq,
}
use h_go.Text.Trim.{is_empty}
use h_go.Protocol.{Message, zero_message, type_deliver}
use h_go.Storage.{Database, Redis}
use h_go.Store.{Store}
use h_go.Store.Messages.{get_message_by_server_id}
use h_go.Store.Delivery.{get_recipients, mark_delivery_sent}
use h_go.Store.Retry.{
  schedule_retry, get_due_retry_server_msg_ids, recover_pending_server_msg_ids,
  list_pending_server_msg_ids_by_user,
}

-- The fields of Worker that change and its two settings; the channel's oldest id is first.
pub record Worker : Type 0 where
  pub deliver_queue : List String
  pub deliver_in_flight : Dict (Unit {0})
  pub max_retry : ℤ
  pub retry_base_delay : ℤ

abbrev pub queue_capacity : ℕ
queue_capacity = 1024

-- NewWorker
abbrev pub new_worker : ℤ → ℤ → Worker
new_worker max_retry retry_base_delay = record {
  deliver_queue = [];
  deliver_in_flight = [];
  max_retry = max_retry;
  retry_base_delay = retry_base_delay;
}

-- The first part of EnqueueServerMsg, under the lock: whether the id is new in flight.
unfoldable pub mark_in_flight : String → Worker → Worker × Bool
mark_in_flight id w =
    if is_some (get id w.deliver_in_flight)
    then (w, false)
    else (record w { deliver_in_flight = put id tt w.deliver_in_flight }, true)

-- `delete(w.deliverInFlight, id)`
unfoldable pub finish : String → Worker → Worker
finish id w = record w { deliver_in_flight = remove id w.deliver_in_flight }

-- The second part, the select: the id goes on the channel, or is dropped if that is full.
unfoldable pub push : String → Worker → Worker
unfolding finish
push id w =
    if ltb (length w.deliver_queue) queue_capacity
    then record w { deliver_queue = w.deliver_queue ++ id ∷ [] }
    else finish id w

-- EnqueueServerMsg
unfoldable pub enqueue_server_msg : String → Worker → Worker
unfolding mark_in_flight push
enqueue_server_msg id w =
    if is_empty id
    then w
    else (let (w', fresh) = mark_in_flight id w in if fresh then push id w' else w')

-- `for _, id := range ids { w.EnqueueServerMsg(id) }`
unfoldable pub enqueue_all : List String → Worker → Worker
unfolding enqueue_server_msg
enqueue_all [] w = w
enqueue_all (id ∷ ids) w = enqueue_all ids (enqueue_server_msg id w)

-- `serverMsgID := <-deliverQueue`
unfoldable pub receive : Worker → Option (String × Worker)
receive w = elim w.deliver_queue [
  | [] ↦ none
  | id ∷ rest ↦ some (id, record w { deliver_queue = rest })
]

-- Rounds of the loop of deliverWorker, as far as they change the worker: the ids that were taken, in their order.
unfoldable pub rounds : ℕ → Worker → List String × Worker
unfolding receive finish
rounds zero w = ([], w)
rounds (suc n) w = elim (receive w) [
  | none ↦ ([], w)
  | some (id, w') ↦ let (ids, w'') = rounds n (finish id w') in (id ∷ ids, w'')
]

-- The recipients of a message, with the one that it names among them.
unfoldable pub with_named : String → List String → List String
with_named to recips =
    if not (is_empty to) && not (contains to recips) then recips ++ to ∷ [] else recips

-- `deliver`, the copy of a message for one recipient
abbrev pub deliver_message : String → Message → String → Message
deliver_message id msg to = record {
  type = type_deliver;
  client_msg_id = "";
  server_msg_id = id;
  chat_id = msg.chat_id;
  from = msg.from;
  to = to;
  seq = msg.seq;
  status = 0;
  body = msg.body;
  ts = msg.ts;
}

-- `if sender != nil { _ = sender.SendJSON(m) }`
abbrev pub sends : {Conn : Type 0} → Option Conn → Message → List (Conn × Message)
sends none m = []
sends (some c) m = (c, m) ∷ []

module _ {D C : Type 0} (sql : Database D) (redis : Redis C) where
  -- The turn of one recipient, by its entry in the map of the users online. `Conn` is what a Sender is; the
  -- calls of SendJSON are answered in their order. `now` is the time that ScheduleRetry or MarkDeliverySent reads in the turn
  -- of each recipient.
  module _ {Conn : Type 0} (online : Dict (Option Conn)) (w : Worker) (now : String → ℕ) where
    unfoldable pub deliver_to :
        String → Message → String → Store D C → Store D C × List (Conn × Message)
    deliver_to id msg r s = elim (get r online) [
      | none ↦ (
        (schedule_retry sql redis id r (some "recipient offline") w.max_retry w.retry_base_delay
            (now r) s).0,
        [],
      )
      | some sender ↦ (
        (mark_delivery_sent sql redis id r none (now r) s).0,
        sends sender (deliver_message id msg r),
      )
    ]

    unfoldable pub deliver_each :
        String → Message → List String → Store D C → Store D C × List (Conn × Message)
    unfolding deliver_to
    deliver_each id msg [] s = (s, [])
    deliver_each id msg (r ∷ rest) s =
        let (s', calls) = deliver_to id msg r s in
        let (s'', calls') = deliver_each id msg rest s' in (s'', calls ++ calls')

    -- The body of the loop of deliverWorker, but for the deferred deletion, `finish`.
    unfoldable pub deliver : String → Store D C → Store D C × List (Conn × Message)
    unfolding with_named deliver_each
    deliver id s =
        let (s', m) = get_message_by_server_id sql redis id s in
        elim m [
          | none ↦ (s', [])
          | some msg ↦
              (let (s'', recips) = get_recipients sql redis id s' in
                deliver_each id msg (with_named msg.to recips) s'')
        ]

  -- EnqueuePendingForUser
  unfoldable pub enqueue_pending_for_user : String → ℤ → Worker → Store D C → Worker × Store D C
  unfolding enqueue_all
  enqueue_pending_for_user username limit w s =
      let (s', ids) = list_pending_server_msg_ids_by_user sql redis username limit s in
      (enqueue_all ids w, s')

  -- RecoverPendingDeliveries
  unfoldable pub recover_pending_deliveries : ℤ → Worker → Store D C → Worker × Store D C
  unfolding enqueue_all
  recover_pending_deliveries limit w s =
      let (s', ids) = recover_pending_server_msg_ids sql redis limit s in (enqueue_all ids w, s')

  -- The body of the loop of retryWorker.
  unfoldable pub retry_tick : ℤ → ℕ → Worker → Store D C → Worker × Store D C
  unfolding enqueue_all
  retry_tick limit now w s =
      let (s', ids) = get_due_retry_server_msg_ids sql redis limit now s in (enqueue_all ids w, s')
