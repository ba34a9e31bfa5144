-- ===== src/Server/Tests.antt =====
-- Ann, who is online with Bob, sends him a message twice.
use h_go.Base.{
  none, ℕ, ◌+◌, ◌≡◌, refl, true, false, [], ◌∷◌, Dict, some, get, put, pos, keys, Bool-cases, inl,
  inr, subst, Distinct, length, ◌≤◌, str_eq, cut, arith,
}
use h_go.Text.Trim.{trim_space, is_empty}
use h_go.Text.Decimal.{show}
use h_go.Protocol.{Message, zero_message}
use h_go.Storage.Sample.{Rows, Cache, no_rows, sql, redis}
use h_go.Store.{new_store, Deliveries}
use h_go.Store.Delivery.Pending.{IsKeyed}
use h_go.Store.Retry.{scan_user, list_pending_server_msg_ids_by_user}
use h_go.Store.Messages.{
  get_message_by_client_id, save_message_with_recipients, next_seq, save_transaction, seqs_loaded,
  max_stored, keep_saved,
}
use h_go.Logic.{saved, Clock, process_send, generate_server_msg_id, client_id_of}
use h_go.Worker.{new_worker, deliver_message, enqueue_all, enqueue_pending_for_user}
use h_go.Worker.Loop.{work, Among}
use h_go.Server.Reaching.{handle_client_send-arrival}
use h_go.Server.Arrival.{arrived, rounds_at, arrival-delivered}
use h_go.Server.{
  new_server, Server, OnlineInfo, completed, recipients_of, handle_client_send, new_logic_service,
  register_online, enqueue_pending,
}
use h_go.Store.Deliveries.{fresh_entry, save_delivery_unsafe}
use h_go.Server.Resend.{handle_client_send_again}

abbrev online : Dict (OnlineInfo ℕ)
online =
    ("ann", record { sender = 1; addr = "10.0.0.1:1" })
    ∷ ("bob", record { sender = 2; addr = "10.0.0.2:1" })
    ∷ []

abbrev server : Server Rows Cache ℕ
server = record (new_server [] 0 true no_rows (some []) (new_worker (pos 5) (pos 0))) {
  online_map = online;
}

abbrev clock : Clock
clock n = 7_000_000_000 + n

abbrev request : Message
request = record zero_message { client_msg_id = "c-1"; to = "bob"; body = "hello" }

abbrev answer : Message
answer = record zero_message {
  type = "deliver";
  client_msg_id = "c-1";
  server_msg_id = "s-7000-1";
  chat_id = "c2c:ann:bob";
  from = "ann";
  to = "bob";
  seq = 1;
  body = "hello";
  ts = 7;
}

first_send :
    let r = completed "ann" (clock 0) request in
    (process_send sql redis (λ n. clock (n + 1)) r (recipients_of "ann" r server) server.logic).1
    ≡ saved answer
unfolding process_send client_id_of trim_space get put get_message_by_client_id
    save_message_with_recipients generate_server_msg_id show next_seq save_transaction seqs_loaded
    max_stored
first_send = refl

blank_not : is_empty (trim_space "c-1") ≡ false
unfolding trim_space
blank_not = refl

handle_client_send_again_example :
    let first = handle_client_send sql redis clock "ann" request server in
    handle_client_send sql redis clock "ann" (record request { body = "again" }) first.0 ≡ first
handle_client_send_again_example =
    handle_client_send_again sql redis clock clock "ann" request (record request { body = "again" })
      server answer first_send blank_not refl refl

abbrev quiet_server : Server Rows Cache ℕ
quiet_server = record server {
  logic = record server.logic { store = new_store false no_rows none };
}

-- A message for Bob waits, and he comes online on the connection 4.
abbrev waiting : Message
waiting = record zero_message { server_msg_id = "s-7-1"; from = "ann"; to = "bob"; body = "hello" }

abbrev bob_waits : Deliveries
bob_waits = ("s-7-1", ("bob", fresh_entry "bob") ∷ []) ∷ []

abbrev with_waiting : Server Rows Cache ℕ
with_waiting = record (new_server [] 0 false no_rows none (new_worker (pos 5) (pos 0))) {
  logic = new_logic_service (record (new_store false no_rows none) {
    messages = ("s-7-1", waiting) ∷ [];
    deliveries = bob_waits;
  });
}

bob_waits-IsKeyed : IsKeyed bob_waits
unfolding get keys
bob_waits-IsKeyed id m e = elim (Bool-cases (str_eq "s-7-1" id)) [
  | inl same ↦
      (let entries : ("bob", fresh_entry "bob") ∷ [] ≡ m = ground arith in
        subst (λ d. Distinct (keys d)) entries (refl, tt))
  | inr other ↦ absurd (ground arith)
]

arrival-delivered_example :
    let v = arrived sql redis "bob" "10.0.0.2:1" 4 with_waiting in
    Among
      (4, deliver_message "s-7-1" waiting "bob")
      (work sql redis (rounds_at v ((λ r. 8_000_000_000) ∷ [])) v.worker v.logic.store).0
arrival-delivered_example =
    arrival-delivered sql redis "s-7-1" "bob" "10.0.0.2:1" 4 waiting (fresh_entry "bob")
      with_waiting ((λ r. 8_000_000_000) ∷ []) refl refl refl bob_waits-IsKeyed (unfold get in refl)
      (unfold get in refl) refl (unfold scan_user get in omega arith) (omega arith)
      (unfold get in refl)
      (unfold enqueue_pending enqueue_pending_for_user register_online
          list_pending_server_msg_ids_by_user scan_user get put cut enqueue_all in
        omega arith)

-- Ann is alone online, without a database, and writes to Bob.
abbrev ann_alone : Server Rows Cache ℕ
ann_alone = record quiet_server {
  online_map = ("ann", record { sender = 1; addr = "10.0.0.1:1" }) ∷ [];
}

quiet_send :
    let r = completed "ann" (clock 0) request in
    (process_send sql redis
      (λ n. clock (n + 1))
      r
      (recipients_of "ann" r ann_alone)
      ann_alone.logic).1
    ≡ saved answer
unfolding process_send client_id_of trim_space get put get_message_by_client_id
    save_message_with_recipients generate_server_msg_id show next_seq save_transaction seqs_loaded
    max_stored
quiet_send = refl

abbrev after_send : Server Rows Cache ℕ
after_send = (handle_client_send sql redis clock "ann" request ann_alone).0

one_waits : length (scan_user "bob" after_send.logic.store.deliveries) ≤ 500
unfolding handle_client_send process_send client_id_of trim_space get put get_message_by_client_id
    save_message_with_recipients generate_server_msg_id show next_seq save_transaction seqs_loaded
    max_stored scan_user enqueue_all keep_saved save_delivery_unsafe
one_waits = omega arith

one_queued : length (arrived sql redis "bob" "10.0.0.2:1" 4 after_send).worker.deliver_queue ≤ 1
unfolding handle_client_send process_send client_id_of trim_space get put get_message_by_client_id
    save_message_with_recipients generate_server_msg_id show next_seq save_transaction seqs_loaded
    max_stored scan_user enqueue_all keep_saved enqueue_pending enqueue_pending_for_user
    register_online list_pending_server_msg_ids_by_user cut
one_queued = omega arith

nothing-IsKeyed : IsKeyed []
unfolding get
nothing-IsKeyed id m e = absurd (ground arith)

handle_client_send-arrival_example :
    let v = arrived sql redis "bob" "10.0.0.2:1" 4 after_send in
    Among
      (4, deliver_message "s-7000-1" answer "bob")
      (work sql redis (rounds_at v ((λ r. 8_000_000_000) ∷ [])) v.worker v.logic.store).0
handle_client_send-arrival_example =
    handle_client_send-arrival sql redis clock "ann" request answer ann_alone "bob" "10.0.0.2:1" 4
      ((λ r. 8_000_000_000) ∷ []) quiet_send refl refl refl nothing-IsKeyed (unfold get in refl)
      (unfold get in refl) (omega arith) one_waits one_queued
