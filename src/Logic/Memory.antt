-- ===== src/Logic/Memory.antt =====
-- What a saved request leaves in a store without a database.
use h_go.Base.{
  String, ◌≡◌, refl, ap, sym, ◌∙◌, subst, false, none, some, List, arith, get, get-put_self, ◌/◌,
  second, Option-cases, inl, inr,
}
use h_go.Text.Trim.{is_empty}
use h_go.Protocol.{Message, type_deliver}
use h_go.Storage.{Database, Redis}
use h_go.Store.{Store}
use h_go.Store.Messages.{next_seq, save_message_with_recipients}
use h_go.Store.Messages.Saved.{saved_maps, persistent-save_message_with_recipients}
use h_go.Store.Delivery.Pending.{IsKeyed, save_deliveries-IsKeyed}
use h_go.Logic.{
  LogicService, saved, Clock, with_store, generate_server_msg_id, chat_of, client_id_of, send_new,
  process_send,
}
use h_go.Logic.Sending.{process_send-new, store-generate_server_msg_id, deliveries-next_seq}

-- The store is still without a database and well formed, and keeps the message under its id, which is not empty.
pub record IsKept {D C : Type 0} (m : Message) (s : Store D C) : Type 0 where
  pub memory : s.persistent ≡ false
  pub keyed : IsKeyed s.deliveries
  pub stored : get m.server_msg_id s.messages ≡ some m
  pub named : is_empty m.server_msg_id ≡ false

module _ {D C : Type 0} (sql : Database D) (redis : Redis C) where
  save_named :
      (msg : Message) (to : List String) (s : Store D C)
      → (save_message_with_recipients sql redis msg to s).1 ≡ none
      → is_empty msg.server_msg_id ≡ false
  unfolding save_message_with_recipients
  save_named msg to s h = ground arith

  save-IsKept :
      (msg : Message) (to : List String) (s : Store D C)
      → (save_message_with_recipients sql redis msg to s).1 ≡ none
      → s.persistent ≡ false
      → IsKeyed s.deliveries
      → IsKept msg (save_message_with_recipients sql redis msg to s).0
  save-IsKept msg to s h memory keyed =
      let (messages, clients, deliveries) = saved_maps sql redis msg to s h in
      record {
        memory = persistent-save_message_with_recipients sql redis msg to s ∙ memory;
        keyed =
            subst IsKeyed (sym deliveries)
              (save_deliveries-IsKeyed msg.server_msg_id to s.deliveries keyed);
        stored =
            ap (get msg.server_msg_id) messages ∙ get-put_self msg.server_msg_id msg s.messages;
        named = save_named msg to s h;
      }

  persistent-next_seq :
      (c : String) (s : Store D C) → (next_seq sql c s).0.persistent ≡ s.persistent
  unfolding next_seq
  persistent-next_seq c s = refl

  send_new-IsKept :
      (clock : Clock) (req : Message) (cid : String) (to : List String) (l : LogicService D C)
      (m : Message)
      → (send_new sql redis clock req cid to l).1 ≡ saved m
      → l.store.persistent ≡ false
      → IsKeyed l.store.deliveries
      → IsKept m (send_new sql redis clock req cid to l).0.store
  unfolding send_new
  send_new-IsKept clock req cid to l m h memory keyed =
      let c = chat_of req in
      let s1 = (next_seq sql c l.store).0 in
      let l2 = (generate_server_msg_id "s" (clock 1) (with_store l s1)).0 in
      let msg : Message = record {
        type = type_deliver;
        server_msg_id = (generate_server_msg_id "s" (clock 1) (with_store l s1)).1;
        client_msg_id = cid;
        chat_id = c;
        from = req.from;
        to = req.to;
        seq = (next_seq sql c l.store).1;
        status = 0;
        body = req.body;
        ts = clock 2 / second;
      } in
      let save = save_message_with_recipients sql redis msg to l2.store in
      let same_store = store-generate_server_msg_id sql redis "s" (clock 1) (with_store l s1) in
      elim (Option-cases save.1) [
        | inr (e, q) ↦ absurd (ground arith)
        | inl q ↦
            (let same : msg ≡ m = ground arith in
              subst (λ x. IsKept x save.0) same
                (save-IsKept msg to l2.store q
                  (ap (λ s. s.persistent) same_store ∙ persistent-next_seq c l.store ∙ memory)
                  (subst IsKeyed
                    (sym
                      (ap (λ s. s.deliveries) same_store ∙ deliveries-next_seq sql redis c l.store))
                    keyed)))
      ]

  -- A request that ProcessSend saves without a database leaves its message in the store under its id.
  pub process_send-IsKept :
      (clock : Clock) (req : Message) (to : List String) (l : LogicService D C) (m : Message)
      → (process_send sql redis clock req to l).1 ≡ saved m
      → l.store.persistent ≡ false
      → IsKeyed l.store.deliveries
      → IsKept m (process_send sql redis clock req to l).0.store
  process_send-IsKept clock req to l m h memory keyed =
      let new = (process_send-new sql redis clock req to l m h).1 in
      subst (λ r. IsKept m r.0.store) (sym new)
        (send_new-IsKept clock req (client_id_of req (clock 0)) to l m (ap (λ r. r.1) (sym new) ∙ h)
          memory keyed)
