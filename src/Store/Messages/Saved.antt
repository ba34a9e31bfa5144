-- ===== src/Store/Messages/Saved.antt =====
-- What a save leaves behind: the message under both of its ids and an open delivery for each recipient.
use h_go.Base.{
  String, ◌≡◌, refl, ap, ◌∙◌, true, false, not, ◌&&◌, none, some, List, [], ◌∷◌, arith, eq_iff,
  str_eq, if◌then◌else◌, Dict, get, put, get-put, get-put_self, get-nil, Option-cases, inl, inr,
  contains,
}
use h_go.Text.Trim.{is_empty}
use h_go.Protocol.{Message}
use h_go.Storage.{Database, Redis}
use h_go.Store.{DeliveryEntry, Deliveries, Store, on_cache, with_db}
use h_go.Store.Deliveries.{entry, entry-save_delivery_unsafe, save_delivery_unsafe, or_fresh}
use h_go.Store.Messages.{
  save_by_client, save_deliveries, keep_saved, refresh_saved, save_transaction,
  save_message_with_recipients, client_entry, get_message_by_client_id, get_message_by_server_id,
}

-- An entry that is there stays, whoever is added.
save_deliveries-keeps :
    (id i t : String) (to : List String) (d : Deliveries) (e : DeliveryEntry)
    → entry i t d ≡ some e
    → entry i t (save_deliveries id to d) ≡ some e
unfolding save_deliveries
save_deliveries-keeps id i t [] d e h = h
save_deliveries-keeps id i t (x ∷ xs) d e h =
    save_deliveries-keeps id i t xs (save_delivery_unsafe id x d) e
      (ground (arith, entry-save_delivery_unsafe id x i t d, eq_iff id i, eq_iff x t))

-- Every recipient of the list has the entry that it had, or a fresh one; no other entry changes.
pub entry-save_deliveries :
    (id i t : String) (to : List String) (d : Deliveries)
    → entry i t (save_deliveries id to d)
      ≡ (if str_eq id i && contains t to then or_fresh t (entry i t d) else entry i t d)
unfolding save_deliveries
entry-save_deliveries id i t [] d = ground arith
entry-save_deliveries id i t (x ∷ xs) d = ground (
  arith,
  entry-save_deliveries id i t xs (save_delivery_unsafe id x d),
  entry-save_delivery_unsafe id x i t d,
  eq_iff id i,
  eq_iff x t,
)

client_entry-save_by_client :
    (msg : Message) (from cid : String) (by_client : Dict (Dict Message))
    → client_entry from cid (save_by_client msg by_client) ≡ (
        if not (is_empty msg.from)
          && not (is_empty msg.client_msg_id)
          && str_eq msg.from from
          && str_eq msg.client_msg_id cid
        then some msg
        else client_entry from cid by_client)
unfolding save_by_client
client_entry-save_by_client msg from cid by_client = elim (Option-cases (get msg.from by_client)) [
  | inl e ↦ ground (
    arith,
    get-put msg.from from (put msg.client_msg_id msg []) by_client,
    get-put msg.client_msg_id cid msg [],
    get-nil {V = Message} cid,
    eq_iff msg.from from,
    eq_iff msg.client_msg_id cid,
  )
  | inr (m, e) ↦ ground (
    arith,
    get-put msg.from from (put msg.client_msg_id msg m) by_client,
    get-put msg.client_msg_id cid msg m,
    eq_iff msg.from from,
    eq_iff msg.client_msg_id cid,
  )
]

module _ {D C : Type 0} (msg : Message) (to : List String) (s : Store D C) where
  keep_saved-maps :
      let s' = keep_saved msg to s in
      (s'.messages ≡ put msg.server_msg_id msg s.messages)
      × (s'.by_client ≡ save_by_client msg s.by_client)
      × (s'.deliveries ≡ save_deliveries msg.server_msg_id to s.deliveries)
  unfolding keep_saved
  keep_saved-maps = (refl, refl, refl)

  keep_saved-persistent : (keep_saved msg to s).persistent ≡ s.persistent
  unfolding keep_saved
  keep_saved-persistent = refl

  on_cache-maps :
      (f : C → C) (d : D)
      → let s' = on_cache f (with_db s d) in
        (s'.messages ≡ s.messages) × (s'.by_client ≡ s.by_client) × (s'.deliveries ≡ s.deliveries)
  on_cache-maps f d = ground arith

module _ {D C : Type 0} (sql : Database D) (redis : Redis C) (msg : Message) (to : List String)
    (s : Store D C) where
  -- A save that is refused leaves the maps of the store as they were.
  pub save_refused_unchanged :
      (e : String)
      → (save_message_with_recipients sql redis msg to s).1 ≡ some e
      → let s' = (save_message_with_recipients sql redis msg to s).0 in
        (s'.messages ≡ s.messages)
        × (s'.by_client ≡ s.by_client)
        × (s'.deliveries ≡ s.deliveries)
        × (s'.next_seq ≡ s.next_seq)
  unfolding save_message_with_recipients
  save_refused_unchanged e h = ground arith

  -- the three maps after a save that succeeded
  pub saved_maps :
      (save_message_with_recipients sql redis msg to s).1 ≡ none
      → let s' = (save_message_with_recipients sql redis msg to s).0 in
        (s'.messages ≡ put msg.server_msg_id msg s.messages)
        × (s'.by_client ≡ save_by_client msg s.by_client)
        × (s'.deliveries ≡ save_deliveries msg.server_msg_id to s.deliveries)
  unfolding save_message_with_recipients
  saved_maps h =
      let d = (sql.transaction (save_transaction sql msg to) s.db).0 in
      let f = refresh_saved redis msg.server_msg_id to in
      let s2 = on_cache f (with_db s d) in
      ground
        (arith, keep_saved-maps msg to s, keep_saved-maps msg to s2, on_cache-maps msg to s f d)

  -- a save does not switch the database on or off
  pub persistent-save_message_with_recipients :
      (save_message_with_recipients sql redis msg to s).0.persistent ≡ s.persistent
  unfolding save_message_with_recipients
  persistent-save_message_with_recipients =
      let d = (sql.transaction (save_transaction sql msg to) s.db).0 in
      let f = refresh_saved redis msg.server_msg_id to in
      let s2 = on_cache f (with_db s d) in
      ground (arith, keep_saved-persistent msg to s, keep_saved-persistent msg to s2)

  -- a save that succeeded changes no delivery but those of its message to its recipients
  pub save_no_other :
      (save_message_with_recipients sql redis msg to s).1 ≡ none
      → (i t : String) → (str_eq msg.server_msg_id i && contains t to) ≡ false
      → entry i t (save_message_with_recipients sql redis msg to s).0.deliveries
        ≡ entry i t s.deliveries
  save_no_other h i t apart =
      ap (entry i t) (saved_maps h).2
      ∙ ground (arith, entry-save_deliveries msg.server_msg_id i t to s.deliveries)

  -- After a save that succeeded, with a database or without, the message is found under its server id and, if it has
  -- a sender and a client id, under these, and each recipient has a delivery, an open one unless there was one
  -- before.
  pub save_found :
      (save_message_with_recipients sql redis msg to s).1 ≡ none
      → let s' = (save_message_with_recipients sql redis msg to s).0 in
        (get_message_by_server_id sql redis msg.server_msg_id s' ≡ (s', some msg))
        × (is_empty msg.from ≡ false
            → is_empty msg.client_msg_id ≡ false
            → get_message_by_client_id sql redis msg.from msg.client_msg_id s' ≡ (s', some msg))
        × ((t : String)
            → contains t to ≡ true
            → entry msg.server_msg_id t s'.deliveries
              ≡ or_fresh t (entry msg.server_msg_id t s.deliveries))
  unfolding get_message_by_server_id get_message_by_client_id
  save_found h =
      let s' = (save_message_with_recipients sql redis msg to s).0 in
      let maps = saved_maps h in
      let id = msg.server_msg_id in
      let by_id : get id s'.messages ≡ some msg =
        ground (arith, maps.0, get-put_self id msg s.messages) in
      (
        ground (arith, by_id),
        λ f c.
            (let by_client : client_entry msg.from msg.client_msg_id s'.by_client ≡ some msg =
                rw maps.1 (
                  ground (
                    arith,
                    client_entry-save_by_client msg msg.from msg.client_msg_id s.by_client,
                    eq_iff msg.from msg.from,
                    eq_iff msg.client_msg_id msg.client_msg_id,
                  )) in
              ground (arith, by_client)),
        λ t m.
            rw maps.2 (ground (arith, entry-save_deliveries id id t to s.deliveries, eq_iff id id)),
      )
