-- ===== src/Logic/Sending.antt =====
-- What ProcessSend promises: a message is saved once under its client id, numbered, and has its deliveries.
use h_go.Base.{
  ℕ, ◌+◌, ◌%◌, ◌^◌, String, ◌≡◌, refl, ap, sym, ◌∙◌, subst, true, false, none, some, List, arith,
  contains, ◌/◌, second, Option-cases, inl, inr, Bool-cases, ◌&&◌, str_eq,
}
use mathlib.Core.Path.{subst₂}
use h_go.Text.Trim.{trim_space, is_empty}
use h_go.Protocol.{Message, type_deliver}
use h_go.Storage.{Database, Redis}
use h_go.Store.{Store}
use h_go.Store.Deliveries.{entry, or_fresh}
use h_go.Store.Messages.{
  next_seq, get_message_by_client_id, get_message_by_server_id, save_message_with_recipients,
}
use h_go.Store.Messages.Seq.{last_seq, chat_key, next_seq-number}
use h_go.Store.Messages.Saved.{save_found, save_no_other}
use h_go.Logic.{
  LogicService, saved, existing, Clock, with_store, generate_server_msg_id, chat_of, client_id_of,
  send_new, process_send,
}

-- A text that is not blank is not empty.
not-blank : (s : String) → is_empty (trim_space s) ≡ false → is_empty s ≡ false
unfolding trim_space
not-blank String.[] h = h
not-blank (String.◌∷◌ c s) h = refl

module _ {D C : Type 0} (sql : Database D) (redis : Redis C) where
  -- a lookup that finds nothing leaves the store as it was
  client_miss :
      (from cid : String) (s : Store D C)
      → (get_message_by_client_id sql redis from cid s).1 ≡ none
      → (get_message_by_client_id sql redis from cid s).0 ≡ s
  unfolding get_message_by_client_id
  client_miss from cid s h = ground arith

  -- What a message that was just saved has, and where the store has it.
  pub record IsSaved (req : Message) (cid : String) (to : List String) (before after : Store D C)
      (m : Message) : Type 0 where
    pub sender : m.from ≡ req.from
    pub client : m.client_msg_id ≡ cid
    pub text : m.body ≡ req.body
    pub chat : m.chat_id ≡ chat_of req
    pub number : m.seq ≡ (last_seq sql (chat_key (chat_of req)) before + 1) % 2 ^ 64
    pub by_server_id : get_message_by_server_id sql redis m.server_msg_id after ≡ (after, some m)
    pub by_client_id :
        is_empty req.from ≡ false
        → is_empty cid ≡ false
        → get_message_by_client_id sql redis req.from cid after ≡ (after, some m)
    pub delivered_to :
        (t : String)
        → contains t to ≡ true
        → entry m.server_msg_id t after.deliveries
          ≡ or_fresh t (entry m.server_msg_id t before.deliveries)
    pub no_other :
        (i t : String)
        → (str_eq m.server_msg_id i && contains t to) ≡ false
        → entry i t after.deliveries ≡ entry i t before.deliveries

  pub store-generate_server_msg_id :
      (p : String) (now : ℕ) (l : LogicService D C)
      → (generate_server_msg_id p now l).0.store ≡ l.store
  unfolding generate_server_msg_id
  store-generate_server_msg_id p now l = refl

  pub deliveries-next_seq :
      (c : String) (s : Store D C) → (next_seq sql c s).0.deliveries ≡ s.deliveries
  unfolding next_seq
  deliveries-next_seq c s = refl

  send_new-IsSaved :
      (clock : Clock) (req : Message) (cid : String) (to : List String) (l : LogicService D C)
      (m : Message)
      → (send_new sql redis clock req cid to l).1 ≡ saved m
      → IsSaved req cid to l.store (send_new sql redis clock req cid to l).0.store m
  unfolding send_new
  send_new-IsSaved clock req cid to l m h =
      let c = chat_of req in
      let s1 = (next_seq sql c l.store).0 in
      let n = (next_seq sql c l.store).1 in
      let l2 = (generate_server_msg_id "s" (clock 1) (with_store l s1)).0 in
      let id = (generate_server_msg_id "s" (clock 1) (with_store l s1)).1 in
      let msg : Message = record {
        type = type_deliver;
        server_msg_id = id;
        client_msg_id = cid;
        chat_id = c;
        from = req.from;
        to = req.to;
        seq = n;
        status = 0;
        body = req.body;
        ts = clock 2 / second;
      } in
      let save = save_message_with_recipients sql redis msg to l2.store in
      elim (Option-cases save.1) [
        | inr (e, q) ↦ absurd (ground arith)
        | inl q ↦
            (let same : msg ≡ m = ground arith in
              let (by_server, by_client, delivered) = save_found sql redis msg to l2.store q in
              let kept : l2.store.deliveries ≡ l.store.deliveries =
                ap (λ s. s.deliveries)
                  (store-generate_server_msg_id "s" (clock 1) (with_store l s1))
                ∙ deliveries-next_seq c l.store in
              subst (λ m'. IsSaved req cid to l.store save.0 m') same
                (record {
                  sender = refl;
                  client = refl;
                  text = refl;
                  chat = refl;
                  number = next_seq-number sql c l.store;
                  by_server_id = by_server;
                  by_client_id = by_client;
                  delivered_to =
                      λ t here. delivered t here ∙ ap (λ d. or_fresh t (entry id t d)) kept;
                  no_other = λ i t apart.
                      save_no_other sql redis msg to l2.store q i t apart ∙ ap (entry i t) kept;
                }))
      ]

  -- a request that is saved went all the way to the save
  pub process_send-new :
      (clock : Clock) (req : Message) (to : List String) (l : LogicService D C) (m : Message)
      → (process_send sql redis clock req to l).1 ≡ saved m
      → (is_empty (trim_space req.from) ≡ false)
        × (process_send sql redis clock req to l
            ≡ send_new sql redis clock req (client_id_of req (clock 0)) to l)
  unfolding process_send
  process_send-new clock req to l m h =
      let cid = client_id_of req (clock 0) in
      let found = get_message_by_client_id sql redis req.from cid l.store in
      elim (Bool-cases (is_empty (trim_space req.from))) [
        | inl blank ↦ absurd (ground arith)
        | inr named ↦ elim (Option-cases found.1) [
          | inr (old, q) ↦ absurd (ground arith)
          | inl q ↦
              (let new : process_send sql redis clock req to l
                    ≡ send_new sql redis clock req cid to (with_store l found.0) =
                  ground arith in
                (
                  named,
                  new
                      ∙ ap (λ s. send_new sql redis clock req cid to (with_store l s))
                          (client_miss req.from cid l.store q),
                ))
        ]
      ]

  -- A request that ProcessSend saves is answered with a message that carries the request's sender, text and chat and the
  -- next number of that chat. After that the message is found under its server id and, if its client id is not
  -- empty, under its sender and client id, and each recipient has a delivery, an open one unless he had one before. No other
  -- delivery has changed.
  pub process_send-IsSaved :
      (clock : Clock) (req : Message) (to : List String) (l : LogicService D C) (m : Message)
      → (process_send sql redis clock req to l).1 ≡ saved m
      → IsSaved req
          (client_id_of req (clock 0))
          to
          l.store
          (process_send sql redis clock req to l).0.store
          m
  process_send-IsSaved clock req to l m h =
      let cid = client_id_of req (clock 0) in
      let new = (process_send-new clock req to l m h).1 in
      subst (λ r. IsSaved req cid to l.store r.0.store m) (sym new)
        (send_new-IsSaved clock req cid to l m (ap (λ r. r.1) (sym new) ∙ h))

  -- a request whose client id is known changes nothing
  process_send-known :
      (clock : Clock) (req : Message) (to : List String) (l : LogicService D C) (m : Message)
      → is_empty (trim_space req.from) ≡ false
      → get_message_by_client_id sql redis req.from (client_id_of req (clock 0)) l.store
        ≡ (l.store, some m)
      → process_send sql redis clock req to l ≡ (l, existing m)
  unfolding process_send
  process_send-known clock req to l m named there = ground arith

  -- After a request with a client id that is not blank was saved, a second one of the same sender under the same client
  -- id is answered with the message that the first one saved, whatever else it says, and changes nothing.
  pub process_send_twice :
      (clock clock' : Clock) (req req' : Message) (to to' : List String) (l : LogicService D C)
      (m : Message)
      → (process_send sql redis clock req to l).1 ≡ saved m
      → is_empty (trim_space req.client_msg_id) ≡ false
      → req'.from ≡ req.from
      → req'.client_msg_id ≡ req.client_msg_id
      → let l' = (process_send sql redis clock req to l).0 in
        process_send sql redis clock' req' to' l' ≡ (l', existing m)
  unfolding client_id_of
  process_send_twice clock clock' req req' to to' l m h named from client =
      let l' = (process_send sql redis clock req to l).0 in
      let sender = (process_send-new clock req to l m h).0 in
      let is = process_send-IsSaved clock req to l m h in
      let cid : client_id_of req (clock 0) ≡ client_id_of req' (clock' 0) = ground arith in
      let there : get_message_by_client_id sql redis req.from (client_id_of req (clock 0)) l'.store
          ≡ (l'.store, some m) =
        is.by_client_id (not-blank req.from sender)
          (ground (arith, not-blank req.client_msg_id named)) in
      process_send-known clock' req' to' l' m (ap (λ s. is_empty (trim_space s)) from ∙ sender) (
        subst₂ (λ f i. get_message_by_client_id sql redis f i l'.store ≡ (l'.store, some m))
          (sym from) cid there)
