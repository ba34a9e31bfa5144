-- ===== src/Server/Broadcast.antt =====
-- Who gets an event of the server.
use h_go.Base.{
  ℕ, ◌/◌, String, ◌≡◌, refl, ap, ◌∙◌, true, false, not, ◌&&◌, none, some, List, [], ◌∷◌, arith,
  eq_iff, str_eq, cat, select, contains, contains-keys, keys, get, is_some, second,
}
use h_go.Text.Trim.{is_empty, trim_space}
use h_go.Text.Chars.{cat-cons}
use h_go.Protocol.{Message, type_deliver}
use h_go.Storage.{Database, Redis}
use h_go.Store.Deliveries.{entry, or_fresh}
use h_go.Store.{Store}
use h_go.Store.Messages.{next_seq, save_message_with_recipients, get_message_by_server_id}
use h_go.Store.Messages.Saved.{save_found}
use h_go.Logic.{LogicService, with_store, generate_server_msg_id, server_msg_id_of}
use h_go.Server.{Server, others, broadcast_system_event}

contains-others :
    (t exclude : String) (names : List String)
    → contains t (select (λ n. not (str_eq n exclude)) names)
      ≡ (contains t names && not (str_eq t exclude))
contains-others t exclude [] = refl
contains-others t exclude (n ∷ ns) =
    ground (arith, contains-others t exclude ns, eq_iff n t, eq_iff n exclude, eq_iff t exclude)

cat-filled : (a b : String) → is_empty a ≡ false → is_empty (cat a b) ≡ false
cat-filled String.[] b h = absurd (ground arith)
cat-filled (String.◌∷◌ c s) b h = ap is_empty (cat-cons c s b)

module _ {D C : Type 0} where
  event_id :
      (now : ℕ) (l : LogicService D C)
      → (is_empty (generate_server_msg_id "sys" now l).1 ≡ false)
        × ((generate_server_msg_id "sys" now l).0.store ≡ l.store)
  unfolding generate_server_msg_id server_msg_id_of trim_space
  event_id now l = (cat-filled "sys" _ refl, refl)

module _ {D C : Type 0} (sql : Database D) (redis : Redis C) where
  memory_after_next_seq :
      (c : String) (s : Store D C)
      → ((next_seq sql c s).0.persistent ≡ s.persistent)
        × ((next_seq sql c s).0.deliveries ≡ s.deliveries)
  unfolding next_seq
  memory_after_next_seq c s = (refl, refl)

  save_in_memory :
      (msg : Message) (to : List String) (s : Store D C)
      → s.persistent ≡ false
      → is_empty msg.server_msg_id ≡ false
      → (save_message_with_recipients sql redis msg to s).1 ≡ none
  unfolding save_message_with_recipients
  save_in_memory msg to s memory filled = ground arith

module _ {D C Conn : Type 0} (sql : Database D) (redis : Redis C) where
  -- Without a database an event of the server is stored under the id and the number that are returned, with its text, and
  -- each user who is online and not the excluded one has a delivery of it, an open one unless there was one.
  pub broadcast_system_event-found :
      (clock : ℕ → ℕ) (body exclude : String) (s : Server D C Conn) (t : String)
      → s.logic.store.persistent ≡ false
      → is_some (get t s.online_map) ≡ true
      → str_eq t exclude ≡ false
      → let (s', id, seq) = broadcast_system_event sql redis clock body exclude s in
        let after = s'.logic.store in
        ((m : Message) × (get_message_by_server_id sql redis id after ≡ (after, some m))
          × (m.body ≡ body)
          × (m.chat_id ≡ "system")
          × (m.seq ≡ seq))
        × (entry id t after.deliveries ≡ or_fresh t (entry id t s.logic.store.deliveries))
  unfolding broadcast_system_event
  broadcast_system_event-found clock body exclude s t memory here other =
      let st = (next_seq sql "system" s.logic.store).0 in
      let seq = (next_seq sql "system" s.logic.store).1 in
      let l = (generate_server_msg_id "sys" (clock 0) (with_store s.logic st)).0 in
      let id = (generate_server_msg_id "sys" (clock 0) (with_store s.logic st)).1 in
      let (filled, kept) = event_id (clock 0) (with_store s.logic st) in
      let (mode, deliveries) = memory_after_next_seq sql redis "system" s.logic.store in
      let msg : Message = record {
        type = type_deliver;
        client_msg_id = "";
        server_msg_id = id;
        chat_id = "system";
        from = "system";
        to = "";
        seq = seq;
        status = 0;
        body = body;
        ts = clock 1 / second;
      } in
      let in_memory : l.store.persistent ≡ false = ap (λ x. x.persistent) kept ∙ mode ∙ memory in
      let same : l.store.deliveries ≡ s.logic.store.deliveries =
        ap (λ x. x.deliveries) kept ∙ deliveries in
      let named : contains t (others exclude s) ≡ true =
        ground
          (arith, contains-others t exclude (keys s.online_map), contains-keys t s.online_map) in
      let (by_id, by_client, delivered) =
        save_found sql redis msg (others exclude s) l.store
          (save_in_memory sql redis msg (others exclude s) l.store in_memory filled) in
      ((msg, by_id, refl, refl, refl), delivered t named ∙ ap (λ d. or_fresh t (entry id t d)) same)
