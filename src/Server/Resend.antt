-- ===== src/Server/Resend.antt =====
-- A client that sends a request again after it lost the answer.
use h_go.Base.{ℕ, ◌+◌, String, ◌≡◌, ap, ◌∙◌, sym, false, arith}
use h_go.Text.Trim.{trim_space, is_empty}
use h_go.Protocol.{Message}
use h_go.Storage.{Database, Redis}
use h_go.Logic.{saved, existing, Clock, process_send, client_id_of}
use h_go.Logic.Sending.{process_send_twice}
use h_go.Server.{
  Server, sender_of, completed, recipients_of, send_ack, enqueue, with_logic, handle_client_send,
}

client_id_of-given :
    (req : Message) (now : ℕ)
    → is_empty (trim_space req.client_msg_id) ≡ false
    → client_id_of req now ≡ req.client_msg_id
unfolding client_id_of
client_id_of-given req now h = ground arith

module _ {D C Conn : Type 0} (sql : Database D) (redis : Redis C) where
  pub handle_client_send-saved :
      (clock : Clock) (name : String) (req : Message) (s : Server D C Conn) (m : Message)
      → let r = completed name (clock 0) req in
        let sent = process_send sql redis (λ n. clock (n + 1)) r (recipients_of name r s) s.logic in
        sent.1 ≡ saved m
        → handle_client_send sql redis clock name req s ≡ (
          enqueue m.server_msg_id (with_logic s sent.0),
          send_ack r.client_msg_id m.server_msg_id m.seq,
        )
  unfolding handle_client_send
  handle_client_send-saved clock name req s m h = ground arith

  handle_client_send-existing :
      (clock : Clock) (name : String) (req : Message) (s : Server D C Conn) (m : Message)
      → let r = completed name (clock 0) req in
        process_send sql redis (λ n. clock (n + 1)) r (recipients_of name r s) s.logic
          ≡ (s.logic, existing m)
        → handle_client_send sql redis clock name req s
          ≡ (s, send_ack r.client_msg_id m.server_msg_id m.seq)
  unfolding handle_client_send
  handle_client_send-existing clock name req s m h = ground arith

  -- When the user sends again a request with a client id that is not blank and that was saved the first time, under the same
  -- sender, he gets the same answer again, with the same server id and number, and nothing else changes: no message is
  -- saved and nothing is queued.
  pub handle_client_send_again :
      (clock clock' : Clock) (name : String) (req req' : Message) (s : Server D C Conn)
      (m : Message)
      → let r = completed name (clock 0) req in
        (process_send sql redis (λ n. clock (n + 1)) r (recipients_of name r s) s.logic).1 ≡ saved m
        → is_empty (trim_space req.client_msg_id) ≡ false
        → req'.from ≡ req.from
        → req'.client_msg_id ≡ req.client_msg_id
        → let first = handle_client_send sql redis clock name req s in
          handle_client_send sql redis clock' name req' first.0 ≡ first
  handle_client_send_again clock clock' name req req' s m h named from client =
      let r = completed name (clock 0) req in
      let r' = completed name (clock' 0) req' in
      let l = (process_send sql redis (λ n. clock (n + 1)) r (recipients_of name r s) s.logic).0 in
      let s1 = enqueue m.server_msg_id (with_logic s l) in
      let given = client_id_of-given req (clock 0) named in
      let same_id : r'.client_msg_id ≡ r.client_msg_id =
        client_id_of-given req' (clock' 0) (ap (λ i. is_empty (trim_space i)) client ∙ named)
        ∙ client
        ∙ sym given in
      let once = handle_client_send-saved clock name req s m h in
      let twice = handle_client_send-existing clock' name req' s1 m (
        process_send_twice sql redis (λ n. clock (n + 1)) (λ n. clock' (n + 1)) r r'
          (recipients_of name r s) (recipients_of name r' s1) s.logic m h
          (ap (λ i. is_empty (trim_space i)) given ∙ named) (ap (sender_of name) from) same_id) in
      ap (λ p. handle_client_send sql redis clock' name req' p.0) once
      ∙ twice
      ∙ ap (λ i. (s1, send_ack i m.server_msg_id m.seq)) same_id
      ∙ sym once
