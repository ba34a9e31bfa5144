-- ===== src/Store/Lifecycle.antt =====
-- The life of a delivery over any run of the operations that saves messages, sends, acknowledges, reads and
-- fails deliveries.
use h_go.Base.{
  ℕ, ◌*◌, ◌≤◌, String, ◌≡◌, refl, ◌∙◌, sym, subst, true, false, ◌&&◌, ◌||◌, some, List, [], ◌∷◌,
  arith, eq_iff, str_eq, ℤ, contains, positive_or, second, Option-cases, Bool-cases, inl, inr,
}
use h_go.Text.Trim.{is_empty}
use h_go.Protocol.{Message}
use h_go.Storage.{Database, Redis}
use h_go.Store.{DeliveryEntry, Deliveries, Store, Error}
use h_go.Store.Deliveries.{entry, update_entry, entry-update_entry, is_open}
use h_go.Store.Messages.{save_message_with_recipients, save_deliveries}
use h_go.Store.Messages.Saved.{
  save_refused_unchanged, saved_maps, persistent-save_message_with_recipients,
  entry-save_deliveries,
}
use h_go.Store.Delivery.{
  ack_entry, read_entry, sent_entry, mark_delivery_sent, mark_delivery_acked, mark_delivery_read,
  get_recipients,
}
use h_go.Store.Delivery.Marks.{
  deliveries-mark_delivery_sent, deliveries-mark_delivery_acked, deliveries-mark_delivery_read,
}
use h_go.Store.Delivery.Pending.{
  IsKeyed, get_recipients-open, update_entry-IsKeyed, save_deliveries-IsKeyed,
}
use h_go.Store.Retry.{schedule_retry, error_or}
use h_go.Store.Retry.Schedule.{failure, max_of, deliveries-schedule_retry, dead-fail_entry}

-- One call of an operation, with its arguments and its time.
pub data Event : Type 0 where
  saves : Message → List String → Event
  sends : String → String → Error → ℕ → Event
  acks : String → String → ℕ → Event
  reads : String → String → ℕ → Event
  fails : String → String → Error → ℤ → ℤ → ℕ → Event

-- An entry goes forward: what was acknowledged, read or dead stays so, and the attempts only grow.
pub record Advances (e e' : DeliveryEntry) : Type 0 where
  pub acked : e.acked ≡ true → e'.acked ≡ true
  pub read : e.read ≡ true → e'.read ≡ true
  pub dead : e.dead ≡ true → e'.dead ≡ true
  pub retry : e.retry ≤ e'.retry

Advances-refl : (e : DeliveryEntry) → Advances e e
Advances-refl e = record { acked = λ h. h; read = λ h. h; dead = λ h. h; retry = omega arith }

Advances-trans : (x y z : DeliveryEntry) → Advances x y → Advances y z → Advances x z
Advances-trans x y z a b =
    let le : x.retry ≤ z.retry = omega (arith, a.retry, b.retry) in
    record {
      acked = λ h. b.acked (a.acked h);
      read = λ h. b.read (a.read h);
      dead = λ h. b.dead (a.dead h);
      retry = le;
    }

-- `d'` keeps every entry of `d`, gone forward.
abbrev Forward : Deliveries → Deliveries → Type 0
Forward d d' =
    (i t : String) (x : DeliveryEntry)
    → entry i t d ≡ some x
    → (y : DeliveryEntry) × (entry i t d' ≡ some y) × Advances x y

Forward-refl : (d : Deliveries) → Forward d d
Forward-refl d i t x h = (x, h, Advances-refl x)

update_entry-Forward :
    (f : DeliveryEntry → DeliveryEntry) (id to : String) (d : Deliveries)
    → ((e : DeliveryEntry) → Advances e (f e))
    → Forward d (update_entry f id to d)
update_entry-Forward f id to d h i t x there = elim (Bool-cases (str_eq id i && str_eq to t)) [
  | inl same ↦
      (f x, ground (arith, entry-update_entry f id to i t d, eq_iff id i, eq_iff to t), h x)
  | inr other ↦ (x, ground (arith, entry-update_entry f id to i t d), Advances-refl x)
]

save_deliveries-Forward :
    (id : String) (to : List String) (d : Deliveries) → Forward d (save_deliveries id to d)
save_deliveries-Forward id to d i t x there =
    (x, ground (arith, entry-save_deliveries id i t to d), Advances-refl x)

ack-Advances : (e : DeliveryEntry) → Advances e (ack_entry e)
ack-Advances e = record { acked = λ h. refl; read = λ h. h; dead = λ h. h; retry = omega arith }

read-Advances : (e : DeliveryEntry) → Advances e (read_entry e)
read-Advances e = record { acked = λ h. refl; read = λ h. refl; dead = λ h. h; retry = omega arith }

sent-Advances : (now : ℕ) (e : DeliveryEntry) → Advances e (sent_entry now e)
sent-Advances now e = record { acked = λ h. h; read = λ h. h; dead = λ h. h; retry = omega arith }

fail-Advances :
    (err : Error) (m b : ℤ) (now : ℕ) (e : DeliveryEntry) → Advances e (failure err m b now e)
fail-Advances err m b now e =
    let (retry, dead, text, acked, read) =
      dead-fail_entry (max_of m) (positive_or b (2 * second)) (error_or "delivery failed" err) now
        e in
    let le : e.retry ≤ (failure err m b now e).retry = omega (arith, retry) in
    record {
      acked = λ h. acked ∙ h;
      read = λ h. read ∙ h;
      dead = λ h. ground (arith, dead);
      retry = le;
    }

-- what an event does to the entries: nothing, new ones, or a change of one
data Change (d : Deliveries) : Deliveries → Type 0 where
  nothing : Change d d
  added : (id : String) → (to : List String) → Change d (save_deliveries id to d)
  changed :
      (f : DeliveryEntry → DeliveryEntry)
      → (id to : String) → ((e : DeliveryEntry) → Advances e (f e))
      → Change d (update_entry f id to d)

Change-Forward : (d d' : Deliveries) → Change d d' → Forward d d'
Change-Forward d d' nothing = Forward-refl d
Change-Forward d d' (added id to) = save_deliveries-Forward id to d
Change-Forward d d' (changed f id to h) = update_entry-Forward f id to d h

Change-IsKeyed : (d d' : Deliveries) → Change d d' → IsKeyed d → IsKeyed d'
Change-IsKeyed d d' nothing h = h
Change-IsKeyed d d' (added id to) h = save_deliveries-IsKeyed id to d h
Change-IsKeyed d d' (changed f id to g) h = update_entry-IsKeyed f id to d h

module _ {D C : Type 0} (sql : Database D) (redis : Redis C) where
  unfoldable pub apply_event : Event → Store D C → Store D C
  apply_event (saves msg to) s = (save_message_with_recipients sql redis msg to s).0
  apply_event (sends id to e now) s = (mark_delivery_sent sql redis id to e now s).0
  apply_event (acks id to now) s = (mark_delivery_acked sql redis id to now s).0
  apply_event (reads id to now) s = (mark_delivery_read sql redis id to now s).0
  apply_event (fails id to e max base now) s = (schedule_retry sql redis id to e max base now s).0

  unfoldable pub run : List Event → Store D C → Store D C
  run [] s = s
  run (e ∷ es) s = run es (apply_event e s)

  apply_event-Change :
      (e : Event) (s : Store D C) → Change s.deliveries (apply_event e s).deliveries
  unfolding apply_event
  apply_event-Change (saves msg to) s =
      elim (Option-cases (save_message_with_recipients sql redis msg to s).1) [
        | inl ok ↦
            subst (Change s.deliveries) (sym (saved_maps sql redis msg to s ok).2)
              (added msg.server_msg_id to)
        | inr (e, refused) ↦
            subst (Change s.deliveries)
              (sym (save_refused_unchanged sql redis msg to s e refused).2) nothing
      ]
  apply_event-Change (sends id to e now) s =
      subst (Change s.deliveries) (sym (deliveries-mark_delivery_sent sql redis id to now s e))
        (changed (sent_entry now) id to (sent-Advances now))
  apply_event-Change (acks id to now) s =
      subst (Change s.deliveries) (sym (deliveries-mark_delivery_acked sql redis id to now s))
        (changed ack_entry id to ack-Advances)
  apply_event-Change (reads id to now) s =
      subst (Change s.deliveries) (sym (deliveries-mark_delivery_read sql redis id to now s))
        (changed read_entry id to read-Advances)
  apply_event-Change (fails id to e max base now) s =
      let same = deliveries-schedule_retry sql redis id to e max base now s in
      let f = failure e max base now in
      elim (Bool-cases (is_empty id || is_empty to)) [
        | inl blank ↦
            (let kept : s.deliveries
                  ≡ (schedule_retry sql redis id to e max base now s).0.deliveries =
                ground (arith, same) in
              subst (Change s.deliveries) kept nothing)
        | inr named ↦
            (let updated : update_entry f id to s.deliveries
                  ≡ (schedule_retry sql redis id to e max base now s).0.deliveries =
                ground (arith, same) in
              subst (Change s.deliveries) updated (changed f id to (fail-Advances e max base now)))
      ]

  -- Over any run of saves, sendings, acknowledgements, reads and failures a delivery is never lost, and it only goes
  -- forward: once acknowledged, read or dead it stays so, and the number of attempts never falls. This holds
  -- whatever the database and the cache answer.
  pub run-Advances :
      (es : List Event) (s : Store D C) (i t : String) (x : DeliveryEntry)
      → entry i t s.deliveries ≡ some x
      → (y : DeliveryEntry) × (entry i t (run es s).deliveries ≡ some y) × Advances x y
  unfolding run
  run-Advances [] s i t x h = (x, h, Advances-refl x)
  run-Advances (e ∷ es) s i t x h =
      let s' = apply_event e s in
      let (y, there, forward) =
        Change-Forward s.deliveries s'.deliveries (apply_event-Change e s) i t x h in
      let (z, after, further) = run-Advances es s' i t y there in
      (z, after, Advances-trans x y z forward further)

  run-IsKeyed :
      (es : List Event) (s : Store D C) → IsKeyed s.deliveries → IsKeyed (run es s).deliveries
  unfolding run
  run-IsKeyed [] s h = h
  run-IsKeyed (e ∷ es) s h =
      let s' = apply_event e s in
      run-IsKeyed es s' (Change-IsKeyed s.deliveries s'.deliveries (apply_event-Change e s) h)

  persistent-apply_event : (e : Event) (s : Store D C) → (apply_event e s).persistent ≡ s.persistent
  unfolding apply_event mark_delivery_sent mark_delivery_acked mark_delivery_read schedule_retry
  persistent-apply_event (saves msg to) s =
      persistent-save_message_with_recipients sql redis msg to s
  persistent-apply_event (sends id to e now) s = ground arith
  persistent-apply_event (acks id to now) s = ground arith
  persistent-apply_event (reads id to now) s = ground arith
  persistent-apply_event (fails id to e max base now) s = ground arith

  persistent-run : (es : List Event) (s : Store D C) → (run es s).persistent ≡ s.persistent
  unfolding run
  persistent-run [] s = refl
  persistent-run (e ∷ es) s = persistent-run es (apply_event e s) ∙ persistent-apply_event e s

  -- Without a database a delivery that was acknowledged, read or given up once is not among the recipients that
  -- GetRecipients names, then and after any further run of operations, if each user has one entry for a message.
  pub settled_not_recipient :
      (es : List Event) (s : Store D C) (i t : String) (x : DeliveryEntry)
      → s.persistent ≡ false
      → IsKeyed s.deliveries
      → entry i t s.deliveries ≡ some x
      → is_open x ≡ false
      → contains t (get_recipients sql redis i (run es s)).1 ≡ false
  settled_not_recipient es s i t x memory keyed there settled =
      let (y, after, forward) = run-Advances es s i t x there in
      let closed : is_open y ≡ false = ground (arith, forward.acked, forward.read, forward.dead) in
      ground (
        arith,
        get_recipients-open sql redis i t (run es s) (persistent-run es s ∙ memory)
            (run-IsKeyed es s keyed),
      )
