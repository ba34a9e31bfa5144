-- ===== src/Worker/Sparing.antt =====
-- What the delivery of one message leaves alone of the others.
use h_go.Base.{
  ℤ, ℕ, String, ◌≡◌, ◌≢◌, refl, ap, sym, ◌∙◌, subst, false, ◌||◌, Option, none, some, List, [], ◌∷◌,
  arith, eq_iff, Dict, get, Option-cases, Bool-cases, inl, inr,
}
use h_go.Text.Trim.{is_empty}
use h_go.Protocol.{Message}
use h_go.Storage.{Database, Redis}
use h_go.Store.{Store, DeliveryEntry, Error}
use h_go.Store.Deliveries.{entry, update_entry, entry-update_entry}
use h_go.Store.Messages.{get_message_by_server_id}
use h_go.Store.Delivery.{get_recipients, mark_delivery_sent, sent_entry}
use h_go.Store.Delivery.Marks.{deliveries-mark_delivery_sent}
use h_go.Store.Delivery.Pending.{IsKeyed, get_recipients-open, update_entry-IsKeyed}
use h_go.Store.Retry.{schedule_retry}
use h_go.Store.Retry.Schedule.{failure, deliveries-schedule_retry}
use h_go.Worker.{Worker, with_named, deliver_to, deliver_each, deliver}
use h_go.Worker.Deliver.{message_found}

-- Without a database: what a delivery of another message leaves alone, seen from one delivery.
pub record Spares {D C : Type 0} (id t : String) (s s' : Store D C) : Type 0 where
  pub memory : s.persistent ≡ false → s'.persistent ≡ false
  pub messages : s'.messages ≡ s.messages
  pub keyed : IsKeyed s.deliveries → IsKeyed s'.deliveries
  pub kept : entry id t s'.deliveries ≡ entry id t s.deliveries

Spares-trans :
    {D C : Type 0} (id t : String) (x y z : Store D C)
    → Spares id t x y
    → Spares id t y z
    → Spares id t x z
Spares-trans id t x y z a b = record {
  memory = λ h. b.memory (a.memory h);
  messages = b.messages ∙ a.messages;
  keyed = λ h. b.keyed (a.keyed h);
  kept = b.kept ∙ a.kept;
}

Spares-refl : {D C : Type 0} (id t : String) (x : Store D C) → Spares id t x x
Spares-refl id t x = record { memory = λ h. h; messages = refl; keyed = λ h. h; kept = refl }

module _ {D C : Type 0} (sql : Database D) (redis : Redis C) (s : Store D C)
    (memory : s.persistent ≡ false) where
  -- a change of the entries of another message
  updated-Spares :
      (f : DeliveryEntry → DeliveryEntry) (i r id t : String) (s' : Store D C)
      → i ≢ id
      → s'.persistent ≡ s.persistent
      → s'.messages ≡ s.messages
      → s'.deliveries ≡ update_entry f i r s.deliveries
      → Spares id t s s'
  updated-Spares f i r id t s' other p m d = record {
    memory = λ h. p ∙ h;
    messages = m;
    keyed = λ h. subst IsKeyed (sym d) (update_entry-IsKeyed f i r s.deliveries h);
    kept =
        ap (entry id t) d ∙ ground (arith, entry-update_entry f i r id t s.deliveries, eq_iff i id);
  }

  sent-Spares :
      (i r id t : String) (now : ℕ)
      → i ≢ id
      → Spares id t s (mark_delivery_sent sql redis i r none now s).0
  unfolding mark_delivery_sent
  sent-Spares i r id t now other =
      updated-Spares (sent_entry now) i r id t (mark_delivery_sent sql redis i r none now s).0 other
        (ground arith) (ground arith) (deliveries-mark_delivery_sent sql redis i r now s none)

  failed-Spares :
      (i r id t : String) (e : Error) (m b : ℤ) (now : ℕ)
      → i ≢ id
      → Spares id t s (schedule_retry sql redis i r e m b now s).0
  unfolding schedule_retry
  failed-Spares i r id t e m b now other =
      let s' = (schedule_retry sql redis i r e m b now s).0 in
      let d = deliveries-schedule_retry sql redis i r e m b now s in
      elim (Bool-cases (is_empty i || is_empty r)) [
        | inl blank ↦
            (let same : s'.deliveries ≡ s.deliveries = ground (arith, d) in
              record {
                memory = λ h. ground arith;
                messages = ground arith;
                keyed = λ h. subst IsKeyed (sym same) h;
                kept = ap (entry id t) same;
              })
        | inr named ↦
            updated-Spares (failure e m b now) i r id t s' other (ground arith) (ground arith)
              (ground (arith, d))
      ]

message_missing :
    {D C : Type 0} (sql : Database D) (redis : Redis C) (i : String) (s : Store D C)
    → s.persistent ≡ false
    → get i s.messages ≡ none
    → get_message_by_server_id sql redis i s ≡ (s, none)
unfolding get_message_by_server_id
message_missing sql redis i s memory h = ground arith

module _ {D C : Type 0} (sql : Database D) (redis : Redis C) {Conn : Type 0}
    (online : Dict (Option Conn)) (w : Worker) (now : String → ℕ) (i id t : String)
    (other : i ≢ id) where
  deliver_to-Spares :
      (msg : Message) (r : String) (s : Store D C)
      → s.persistent ≡ false
      → Spares id t s (deliver_to sql redis online w now i msg r s).0
  unfolding deliver_to
  deliver_to-Spares msg r s memory = elim (Option-cases (get r online)) [
    | inl away ↦
        rw (away, deliver_to)
          (failed-Spares sql redis s memory i r id t (some "recipient offline") w.max_retry
            w.retry_base_delay (now r) other)
    | inr (c, here) ↦ rw (here, deliver_to) (sent-Spares sql redis s memory i r id t (now r) other)
  ]

  deliver_each-Spares :
      (msg : Message) (rs : List String) (s : Store D C)
      → s.persistent ≡ false
      → Spares id t s (deliver_each sql redis online w now i msg rs s).0
  unfolding deliver_each
  deliver_each-Spares msg [] s memory = Spares-refl id t s
  deliver_each-Spares msg (r ∷ rs) s memory =
      let s' = (deliver_to sql redis online w now i msg r s).0 in
      let first = deliver_to-Spares msg r s memory in
      Spares-trans id t s s' (deliver_each sql redis online w now i msg rs s').0 first
        (deliver_each-Spares msg rs s' (first.memory memory))

  -- GetRecipients changes nothing without a database.
  pub deliver-Spares :
      (s : Store D C)
      → s.persistent ≡ false
      → IsKeyed s.deliveries
      → Spares id t s (deliver sql redis online w now i s).0
  unfolding deliver
  deliver-Spares s memory keyed = elim (Option-cases (get i s.messages)) [
    | inl missing ↦
        (let same : s ≡ (deliver sql redis online w now i s).0 =
            ground (arith, message_missing sql redis i s memory missing) in
          subst (Spares id t s) same (Spares-refl id t s))
    | inr (msg, there) ↦
        (let rs = with_named msg.to (get_recipients sql redis i s).1 in
          let same : (deliver_each sql redis online w now i msg rs s).0
              ≡ (deliver sql redis online w now i s).0 =
            ground (
              arith,
              message_found sql redis online w now i msg s there,
              (get_recipients-open sql redis i "" s memory keyed).0,
            ) in
          subst (Spares id t s) same (deliver_each-Spares msg rs s memory))
  ]
