-- ===== src/Worker/Progress.antt =====
-- The worker gets to every id on its channel.
use h_go.Base.{
  suc, ◌<◌, ◌≡◌, refl, ap, subst, ◌∙◌, String, true, false, none, List, [], ◌∷◌, ◌++◌, arith,
  eq_iff, contains, length, length-append, is_some, get, get-remove, if◌then◌else◌,
}
use h_go.Text.Trim.{is_empty}
use h_go.Worker.{
  Worker, enqueue_server_msg, queue_capacity, mark_in_flight, push, finish, receive, rounds,
}

-- As many rounds as there are ids on the channel take all of them in their order, and leave none of them in flight.
rounds-all :
    (ids : List String) (w : Worker) (k : String)
    → w.deliver_queue ≡ ids
    → ((rounds (length ids) w).0 ≡ ids)
      × ((rounds (length ids) w).1.deliver_queue ≡ [])
      × (get k (rounds (length ids) w).1.deliver_in_flight
          ≡ (if contains k ids then none else get k w.deliver_in_flight))
unfolding rounds receive finish
rounds-all [] w k h = ground arith
rounds-all (id ∷ ids) w k h =
    let w' = finish id (record w { deliver_queue = ids }) in
    let rest = rounds-all ids w' k refl in
    let gone = get-remove id k w.deliver_in_flight in ground (arith, eq_iff id k)

enqueued :
    (id : String) (w : Worker)
    → is_empty id ≡ false
    → is_some (get id w.deliver_in_flight) ≡ false
    → length w.deliver_queue < queue_capacity
    → (enqueue_server_msg id w).deliver_queue ≡ w.deliver_queue ++ id ∷ []
unfolding enqueue_server_msg mark_in_flight push
enqueued id w full fresh room = ground arith

contains-last : (id : String) (ids : List String) → contains id (ids ++ id ∷ []) ≡ true
contains-last id [] = ground (arith, eq_iff id id)
contains-last id (x ∷ ids) = ground (arith, contains-last id ids)

-- An id that is not empty and not in flight, and is put on a channel with room, is taken by the worker after the ids before
-- it, each of which is taken once; the channel is then empty, and the id can be put on it again.
pub enqueue_server_msg-taken :
    (id : String) (w : Worker)
    → is_empty id ≡ false
    → is_some (get id w.deliver_in_flight) ≡ false
    → length w.deliver_queue < queue_capacity
    → (let (ids, w') = rounds (suc (length w.deliver_queue)) (enqueue_server_msg id w) in
        (ids ≡ w.deliver_queue ++ id ∷ [])
        × (w'.deliver_queue ≡ [])
        × (is_some (get id w'.deliver_in_flight) ≡ false))
enqueue_server_msg-taken id w full fresh room =
    let w1 = enqueue_server_msg id w in
    let queue = w.deliver_queue ++ id ∷ [] in
    let queued : w1.deliver_queue ≡ queue = enqueued id w full fresh room in
    let all = rounds-all queue w1 id queued in
    let size : length queue ≡ suc (length w.deliver_queue) =
      ground (arith, length-append w.deliver_queue (id ∷ [])) in
    subst
      (λ n.
        ((rounds n w1).0 ≡ queue)
        × ((rounds n w1).1.deliver_queue ≡ [])
        × (is_some (get id (rounds n w1).1.deliver_in_flight) ≡ false))
      size (all.0, all.1, ap is_some all.2 ∙ ground (arith, contains-last id w.deliver_queue))
