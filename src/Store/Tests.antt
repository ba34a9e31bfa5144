-- ===== src/Store/Tests.antt =====
-- Runs of the store on the sample database and without one.
use h_go.Base.{
  ℕ, ◌+◌, ◌*◌, ◌^◌, ◌<◌, ◌≡◌, refl, Bool, true, false, none, some, List, [], ◌∷◌, ◌++◌, arith, pos,
  contains, length, get, keys, Distinct, Bool-cases, inl, inr, subst, str_eq, All, ltb,
  if◌then◌else◌,
}
use h_go.Protocol.{Message, zero_message}
use h_go.Storage.Sample.{Rows, Cache, no_rows, sql, redis}
use h_go.Store.{Store, DeliveryEntry, Error, new_store}
use h_go.Store.Deliveries.{entry, fresh_entry}
use h_go.Store.Messages.{
  save_message_with_recipients, get_message_by_server_id, get_message_by_client_id, next_seq,
}
use h_go.Store.Messages.Saved.{save_refused_unchanged}
use h_go.Store.Messages.Seq.{numbers_of, numbers_of-consecutive, count_up, last_seq}
use h_go.Store.Delivery.{get_recipients}
use h_go.Store.Delivery.Pending.{IsKeyed}
use h_go.Store.Retry.{retry_time}
use h_go.Store.Retry.Schedule.{fail_all, fail_all-dead}
use h_go.Store.Retry.Backoff.{retry_time-delay}
use h_go.Store.History.{is_between, select_between, c2c_history_from_memory}
use h_go.Store.History.Sorting.{IsSorted, how_many}
use h_go.Store.History.Answers.{c2c_history-newest}
use h_go.Store.Lifecycle.{
  Event, saves, sends, acks, reads, fails, run, run-Advances, Advances, settled_not_recipient,
}

abbrev hello : Message
hello = record {
  type = "deliver";
  client_msg_id = "c-1";
  server_msg_id = "s-7-1";
  chat_id = "c2c:ann:bob";
  from = "ann";
  to = "bob";
  seq = 1;
  status = 0;
  body = "hello";
  ts = 7;
}

abbrev with_database : Store Rows Cache
with_database = new_store true no_rows (some [])

abbrev in_memory : Store Rows Cache
in_memory = new_store false no_rows none

abbrev saved_store : Store Rows Cache
saved_store = (save_message_with_recipients sql redis hello ("bob" ∷ "cat" ∷ []) with_database).0

ok : (save_message_with_recipients sql redis hello ("bob" ∷ "cat" ∷ []) with_database).1 ≡ none
unfolding save_message_with_recipients h_go.Store.Messages.save_transaction
ok = refl

unnamed :
    (save_message_with_recipients sql redis zero_message [] saved_store).1 ≡ some "invalid message"
unfolding save_message_with_recipients
unnamed = refl

save_refused_unchanged_example :
    let s' = (save_message_with_recipients sql redis zero_message [] saved_store).0 in
    (s'.messages ≡ saved_store.messages)
    × (s'.by_client ≡ saved_store.by_client)
    × (s'.deliveries ≡ saved_store.deliveries)
    × (s'.next_seq ≡ saved_store.next_seq)
save_refused_unchanged_example =
    save_refused_unchanged sql redis zero_message [] saved_store "invalid message" unnamed

below : last_seq sql "a" in_memory + 3 < 2 ^ 64
unfolding last_seq get h_go.Store.Messages.max_stored
below = omega arith

numbers_of-consecutive_example :
    numbers_of sql "a" ("a" ∷ "b" ∷ "a" ∷ []) in_memory
    ≡ count_up (last_seq sql "a" in_memory + 1) 2
numbers_of-consecutive_example =
    numbers_of-consecutive sql "a" ("a" ∷ "b" ∷ "a" ∷ []) in_memory below

-- one message with an open delivery to Bob and a dead one to Cat
abbrev bob_entry : DeliveryEntry
bob_entry = fresh_entry "bob"

abbrev cat_entry : DeliveryEntry
cat_entry = record (fresh_entry "cat") { dead = true; retry = 5 }

abbrev two_deliveries : Store Rows Cache
two_deliveries = record in_memory {
  messages = ("s-7-1", hello) ∷ [];
  deliveries = ("s-7-1", ("bob", bob_entry) ∷ ("cat", cat_entry) ∷ []) ∷ [];
}

two_deliveries-IsKeyed : IsKeyed two_deliveries.deliveries
unfolding get keys
two_deliveries-IsKeyed id m e = elim (Bool-cases (str_eq "s-7-1" id)) [
  | inl same ↦
      (let entries : ("bob", bob_entry) ∷ ("cat", cat_entry) ∷ [] ≡ m = ground arith in
        subst (λ d. Distinct (keys d)) entries (refl, (refl, tt)))
  | inr other ↦ absurd (ground arith)
]

bob_there : entry "s-7-1" "bob" two_deliveries.deliveries ≡ some bob_entry
unfolding get
bob_there = refl

cat_there : entry "s-7-1" "cat" two_deliveries.deliveries ≡ some cat_entry
unfolding get
cat_there = refl

abbrev events : List Event
events =
    saves hello ("bob" ∷ [])
    ∷ sends "s-7-1" "bob" none 8
    ∷ fails "s-7-1" "bob" none (pos 5) (pos 0) 9
    ∷ acks "s-7-1" "bob" 10
    ∷ reads "s-7-1" "bob" 11
    ∷ []

run-Advances_example :
    (y : DeliveryEntry) × (entry "s-7-1" "bob" (run sql redis events two_deliveries).deliveries
      ≡ some y)
    × Advances bob_entry y
run-Advances_example =
    run-Advances sql redis events two_deliveries "s-7-1" "bob" bob_entry bob_there

settled_not_recipient_example :
    contains "cat" (get_recipients sql redis "s-7-1" (run sql redis events two_deliveries)).1
    ≡ false
settled_not_recipient_example =
    settled_not_recipient sql redis events two_deliveries "s-7-1" "cat" cat_entry refl
      two_deliveries-IsKeyed cat_there refl

abbrev failures : List (Error × ℕ)
failures = (none, 8) ∷ (some "recipient offline", 12) ∷ []

fail_all-dead_example :
    (y : DeliveryEntry) × (entry "s-7-1" "bob"
        (fail_all sql redis "s-7-1" "bob" (pos 2) (pos 0) failures two_deliveries).deliveries
      ≡ some y)
    × (y.retry ≡ 2)
    × (y.dead ≡ true)
fail_all-dead_example =
    fail_all-dead sql redis "s-7-1" "bob" (pos 2) (pos 0) failures two_deliveries bob_entry refl
      refl bob_there refl refl

retry_time-delay_example : retry_time 100 2_000_000_000 4 ≡ pos (100 + 2_000_000_000 * 8)
retry_time-delay_example = retry_time-delay 100 2_000_000_000 4 (omega arith)

c2c_history-newest_example :
    let out = c2c_history_from_memory "bob" "ann" (pos 1) two_deliveries.messages in
    let all = select_between "bob" "ann" two_deliveries.messages in
    All (λ m. is_between "bob" "ann" m ≡ true) out
    × (length out ≡ (if ltb 1 (length all) then 1 else length all))
    × ((older : List Message) × IsSorted (older ++ out)
        × ((p : Message → Bool) → how_many p (older ++ out) ≡ how_many p all))
c2c_history-newest_example = c2c_history-newest "bob" "ann" 0 two_deliveries.messages
