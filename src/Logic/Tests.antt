-- ===== src/Logic/Tests.antt =====
-- Ann sends Bob a message, and sends it again.
use h_go.Base.{◌+◌, ◌≡◌, refl, true, false, some, [], ◌∷◌, arith, Distinct, get, put}
use h_go.Text.Trim.{trim_space, is_empty}
use h_go.Text.Decimal.{show}
use h_go.Protocol.{Message, zero_message}
use h_go.Storage.Sample.{Rows, Cache, no_rows, sql, redis}
use h_go.Store.{new_store}
use h_go.Store.Messages.{
  get_message_by_client_id, save_message_with_recipients, next_seq, save_transaction, seqs_loaded,
  max_stored,
}
use h_go.Logic.{
  LogicService, generate_server_msg_id, saved, existing, Clock, process_send, client_id_of,
}
use h_go.Logic.Ids.{ids_of, ids_of-Distinct}
use h_go.Logic.Sending.{IsSaved, process_send-IsSaved, process_send_twice}

abbrev service : LogicService Rows Cache
service = record { store = new_store true no_rows (some []); id_counter = 0 }

abbrev clock : Clock
clock n = 7_000_000_000 + n

abbrev request : Message
request = record zero_message { client_msg_id = "c-1"; from = "ann"; to = "bob"; body = "hello" }

abbrev answer : Message
answer = record {
  type = "deliver";
  client_msg_id = "c-1";
  server_msg_id = "s-7000-1";
  chat_id = "c2c:ann:bob";
  from = "ann";
  to = "bob";
  seq = 1;
  status = 0;
  body = "hello";
  ts = 7;
}

first_send : (process_send sql redis clock request ("bob" ∷ []) service).1 ≡ saved answer
unfolding process_send trim_space get put get_message_by_client_id save_message_with_recipients
    generate_server_msg_id show next_seq save_transaction seqs_loaded max_stored
first_send = refl

process_send-IsSaved_example :
    IsSaved sql redis request
      (client_id_of request (clock 0))
      ("bob" ∷ [])
      service.store
      (process_send sql redis clock request ("bob" ∷ []) service).0.store
      answer
process_send-IsSaved_example =
    process_send-IsSaved sql redis clock request ("bob" ∷ []) service answer first_send

blank_not : is_empty (trim_space "c-1") ≡ false
unfolding trim_space
blank_not = refl

process_send_twice_example :
    let l = (process_send sql redis clock request ("bob" ∷ []) service).0 in
    process_send sql redis clock (record request { body = "again" }) [] l ≡ (l, existing answer)
process_send_twice_example =
    process_send_twice sql redis clock clock request (record request { body = "again" })
      ("bob" ∷ []) [] service answer first_send blank_not refl refl

ids_of-Distinct_example : Distinct (ids_of (("s", 5) ∷ ("", 5) ∷ ("s", 4) ∷ []) service)
ids_of-Distinct_example = ids_of-Distinct (("s", 5) ∷ ("", 5) ∷ ("s", 4) ∷ []) service (omega arith)
