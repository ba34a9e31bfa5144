-- ===== src/Worker/Tests.antt =====
-- The queue at work, and the delivery of one message.
use h_go.Base.{
  ℕ, ◌≡◌, refl, false, ◌||◌, none, some, [], ◌∷◌, Dict, Option, take, get, put, keys, pos, str_eq,
  if◌then◌else◌, Bool-cases, inl, inr, subst, Distinct, arith,
}
use h_go.Protocol.{Message, zero_message, type_deliver}
use h_go.Storage.Sample.{Rows, Cache, no_rows, sql, redis}
use h_go.Store.{Store, DeliveryEntry, new_store}
use h_go.Store.Deliveries.{entry, fresh_entry, map_entry}
use h_go.Store.Delivery.Pending.{IsKeyed, is_open_entry}
use h_go.Worker.{Worker, new_worker, enqueue_server_msg, enqueue_all, deliver}
use h_go.Store.Helpers.{dedupe_strings}
use h_go.Worker.Recovering.{enqueue_all-dedupe}
use h_go.Worker.Queue.{
  System, idle_system, IsTracked, reachable-IsTracked, enqueue_server_msg-Reach,
}
use h_go.Worker.Deliver.{outcome, deliver-entries}
use h_go.Worker.Calls.{calls_for, calls_for-deliver}

abbrev idle : System
idle = idle_system (pos 5) (pos 0)

abbrev with_one : System
with_one = record idle { worker = enqueue_server_msg "s-7-1" idle.worker }

reachable-IsTracked_example : IsTracked with_one
reachable-IsTracked_example =
    reachable-IsTracked (pos 5) (pos 0) (enqueue_server_msg-Reach idle "s-7-1")

abbrev worker : Worker
worker = new_worker (pos 5) (pos 0)

abbrev msg : Message
msg = record zero_message { server_msg_id = "s-7-1"; from = "ann"; to = "bob"; body = "hello" }

abbrev bob_entry : DeliveryEntry
bob_entry = fresh_entry "bob"

abbrev cat_entry : DeliveryEntry
cat_entry = fresh_entry "cat"

abbrev store : Store Rows Cache
store = record (new_store false no_rows none) {
  messages = ("s-7-1", msg) ∷ [];
  deliveries = ("s-7-1", ("bob", bob_entry) ∷ ("cat", cat_entry) ∷ []) ∷ [];
}

-- Bob is online, with 4 for his connection, and Cat is not
abbrev online : Dict (Option ℕ)
online = ("bob", some 4) ∷ []

store-IsKeyed : IsKeyed store.deliveries
unfolding get keys
store-IsKeyed id m e = elim (Bool-cases (str_eq "s-7-1" id)) [
  | inl same ↦
      (let entries : ("bob", bob_entry) ∷ ("cat", cat_entry) ∷ [] ≡ m = ground arith in
        subst (λ d. Distinct (keys d)) entries (refl, (refl, tt)))
  | inr other ↦ absurd (ground arith)
]

stored : get "s-7-1" store.messages ≡ some msg
unfolding get
stored = refl

deliver-entries_example :
    entry "s-7-1" "cat" (deliver sql redis online worker (λ r. 9) "s-7-1" store).0.deliveries ≡ (
      if is_open_entry (entry "s-7-1" "cat" store.deliveries) || false
      then map_entry (outcome online worker (λ r. 9) "cat") (entry "s-7-1" "cat" store.deliveries)
      else entry "s-7-1" "cat" store.deliveries)
deliver-entries_example =
    deliver-entries sql redis online worker (λ r. 9) "s-7-1" "s-7-1" "cat" msg store refl
      store-IsKeyed stored refl refl

calls_for-deliver_example :
    calls_for "bob" (deliver sql redis online worker (λ r. 9) "s-7-1" store).1 ≡ (
      if is_open_entry (entry "s-7-1" "bob" store.deliveries) || str_eq msg.to "bob"
      then elim (get "bob" online) [
        | none ↦ []
        | some none ↦ []
        | some (some c) ↦ (c, record msg { type = type_deliver }) ∷ []
      ]
      else [])
calls_for-deliver_example =
    calls_for-deliver sql redis online worker (λ r. 9) "s-7-1" "bob" msg store refl store-IsKeyed
      stored refl

dropped_twice :
    (enqueue_all ("a" ∷ "" ∷ "b" ∷ "a" ∷ []) (new_worker (pos 5) (pos 0))).deliver_queue
    ≡ "a" ∷ "b" ∷ []
unfolding enqueue_all get put
dropped_twice = refl

enqueue_all-dedupe_example :
    (enqueue_all ("a" ∷ "" ∷ "b" ∷ "a" ∷ []) (new_worker (pos 5) (pos 0))).deliver_queue
    ≡ take 1024 (dedupe_strings ("a" ∷ "" ∷ "b" ∷ "a" ∷ []))
enqueue_all-dedupe_example = enqueue_all-dedupe ("a" ∷ "" ∷ "b" ∷ "a" ∷ []) (pos 5) (pos 0)
