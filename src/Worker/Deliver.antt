-- ===== src/Worker/Deliver.antt =====
-- What the delivery of one message sends, and what becomes of the deliveries.
use h_go.Base.{
  ℕ, String, ◌≡◌, refl, ap, ◌∙◌, subst, true, false, not, ◌&&◌, ◌||◌, Option, none, some, List, [],
  ◌∷◌, ◌++◌, arith, eq_iff, str_eq, if◌then◌else◌, Dict, get, contains, Distinct, is_some,
  Option-cases, Bool-cases, inl, inr,
}
use h_go.Text.Trim.{is_empty}
use h_go.Protocol.{Message}
use h_go.Storage.{Database, Redis}
use h_go.Store.{Store, DeliveryEntry}
use h_go.Store.Deliveries.{entry, map_entry, update_entry, entry-update_entry}
use h_go.Store.Messages.{get_message_by_server_id}
use h_go.Store.Delivery.{get_recipients, sent_entry}
use h_go.Store.Delivery.Marks.{deliveries-mark_delivery_sent}
use h_go.Store.Delivery.Pending.{
  IsKeyed, is_open_entry, get_recipients-open, get_recipients-Distinct,
}
use h_go.Store.Retry.Schedule.{failure, deliveries-schedule_retry}
use h_go.Worker.{Worker, with_named, deliver_message, sends, deliver_to, deliver_each, deliver}

-- The calls of SendJSON for one recipient, and for all of them: one for a user who is online with a connection.
unfoldable pub calls_to :
    {Conn : Type 0} → Dict (Option Conn) → String → Message → String → List (Conn × Message)
calls_to online id msg r = elim (get r online) [
  | none ↦ []
  | some sender ↦ sends sender (deliver_message id msg r)
]

unfoldable pub calls_of :
    {Conn : Type 0} → Dict (Option Conn) → String → Message → List String → List (Conn × Message)
calls_of online id msg [] = []
calls_of online id msg (r ∷ rest) = calls_to online id msg r ++ calls_of online id msg rest

-- What becomes of the delivery to a recipient: one more attempt if he is online, and else one more failure.
pub outcome :
    {Conn : Type 0}
    → Dict (Option Conn)
    → Worker
    → (String → ℕ)
    → String
    → DeliveryEntry
    → DeliveryEntry
outcome online w now r = elim (get r online) [
  | none ↦ failure (some "recipient offline") w.max_retry w.retry_base_delay (now r)
  | some sender ↦ sent_entry (now r)
]

contains-append :
    (t x : String) (xs : List String) → contains t (xs ++ x ∷ []) ≡ (contains t xs || str_eq x t)
contains-append t x [] = ground arith
contains-append t x (y ∷ ys) = ground (arith, contains-append t x ys)

append-Distinct :
    (x : String) (xs : List String) → Distinct xs → contains x xs ≡ false → Distinct (xs ++ x ∷ [])
append-Distinct x [] d h = (refl, tt)
append-Distinct x (y ∷ ys) d h =
    ground (arith, append-Distinct x ys d.1, contains-append y x ys, eq_iff x y, eq_iff y x)

pub contains-with_named :
    (t to : String) (xs : List String)
    → is_empty t ≡ false
    → contains t (with_named to xs) ≡ (contains t xs || str_eq to t)
unfolding with_named
contains-with_named t to xs ht = ground (arith, contains-append t to xs, eq_iff to t)

pub with_named-Distinct :
    (to : String) (xs : List String) → Distinct xs → Distinct (with_named to xs)
unfolding with_named
with_named-Distinct to xs d = elim (Bool-cases (not (is_empty to) && not (contains to xs))) [
  | inl new ↦
      (let same : xs ++ to ∷ [] ≡ with_named to xs = ground arith in
        subst Distinct same (append-Distinct to xs d (ground arith)))
  | inr old ↦ (let same : xs ≡ with_named to xs = ground arith in subst Distinct same d)
]

module _ {D C : Type 0} (sql : Database D) (redis : Redis C) {Conn : Type 0}
    (online : Dict (Option Conn)) (w : Worker) (now : String → ℕ) where
  pub message_found :
      (id : String) (msg : Message) (s : Store D C)
      → get id s.messages ≡ some msg
      → get_message_by_server_id sql redis id s ≡ (s, some msg)
  unfolding get_message_by_server_id
  message_found id msg s h = ground arith

  deliver_to-calls :
      (id : String) (msg : Message) (r : String) (s : Store D C)
      → (deliver_to sql redis online w now id msg r s).1 ≡ calls_to online id msg r
  unfolding deliver_to calls_to
  deliver_to-calls id msg r s = ground arith

  deliver_each-calls :
      (id : String) (msg : Message) (rs : List String) (s : Store D C)
      → (deliver_each sql redis online w now id msg rs s).1 ≡ calls_of online id msg rs
  unfolding deliver_each calls_of
  deliver_each-calls id msg [] s = refl
  deliver_each-calls id msg (r ∷ rs) s =
      let s' = (deliver_to sql redis online w now id msg r s).0 in
      ap (λ c. c ++ (deliver_each sql redis online w now id msg rs s').1)
        (deliver_to-calls id msg r s)
      ∙ ap (λ c. calls_to online id msg r ++ c) (deliver_each-calls id msg rs s')

  deliver_to-deliveries :
      (id : String) (msg : Message) (r : String) (s : Store D C)
      → is_empty id ≡ false
      → (deliver_to sql redis online w now id msg r s).0.deliveries ≡ (
          if is_empty r && not (is_some (get r online))
          then s.deliveries
          else update_entry (outcome online w now r) id r s.deliveries)
  unfolding deliver_to outcome
  deliver_to-deliveries id msg r s hid = ground (
    arith,
    deliveries-schedule_retry sql redis id r (some "recipient offline") w.max_retry
        w.retry_base_delay (now r) s,
    deliveries-mark_delivery_sent sql redis id r (now r) s none,
  )

  deliver_to-entry :
      (id : String) (msg : Message) (r i t : String) (s : Store D C)
      → is_empty id ≡ false
      → is_empty t ≡ false
      → entry i t (deliver_to sql redis online w now id msg r s).0.deliveries ≡ (
          if str_eq id i && str_eq r t
          then map_entry (outcome online w now t) (entry i t s.deliveries)
          else entry i t s.deliveries)
  deliver_to-entry id msg r i t s hid ht =
      let f = outcome online w now r in
      let same : str_eq r t ≡ true → f ≡ outcome online w now t =
        λ e. ap (outcome online w now) ((eq_iff r t).0 e) in
      let blank : str_eq r t ≡ true → is_empty r ≡ false =
        λ e. ap is_empty ((eq_iff r t).0 e) ∙ ht in
      let entries : str_eq r t ≡ true
          → str_eq id i ≡ true
          → entry id r s.deliveries ≡ entry i t s.deliveries =
        λ e e'.
          ap (λ k. entry k r s.deliveries) ((eq_iff id i).0 e')
          ∙ ap (λ k. entry i k s.deliveries) ((eq_iff r t).0 e) in
      let deliveries = deliver_to-deliveries id msg r s hid in
      let updated = entry-update_entry f id r i t s.deliveries in
      elim (Bool-cases (is_empty r && not (is_some (get r online)))) [
        | inl nobody ↦
            (let kept : (deliver_to sql redis online w now id msg r s).0.deliveries ≡ s.deliveries =
                ground (arith, deliveries) in
              ap (entry i t) kept ∙ ground (arith, blank))
        | inr somebody ↦
            (let changed : (deliver_to sql redis online w now id msg r s).0.deliveries
                  ≡ update_entry f id r s.deliveries =
                ground (arith, deliveries) in
              ap (entry i t) changed ∙ updated ∙ ground (arith, same, entries))
      ]

  deliver_each-entry :
      (id : String) (msg : Message) (rs : List String) (i t : String) (s : Store D C)
      → is_empty id ≡ false
      → is_empty t ≡ false
      → Distinct rs
      → entry i t (deliver_each sql redis online w now id msg rs s).0.deliveries ≡ (
          if str_eq id i && contains t rs
          then map_entry (outcome online w now t) (entry i t s.deliveries)
          else entry i t s.deliveries)
  unfolding deliver_each
  deliver_each-entry id msg [] i t s hid ht d = ground arith
  deliver_each-entry id msg (r ∷ rs) i t s hid ht d =
      let s' = (deliver_to sql redis online w now id msg r s).0 in
      ground (
        arith,
        deliver_each-entry id msg rs i t s' hid ht d.1,
        deliver_to-entry id msg r i t s hid ht,
        eq_iff r t,
      )

  -- The calls of SendJSON that one delivery makes: none if the message is not found, and else one for each recipient who
  -- is online, in the order of the recipients, with the message addressed to him.
  pub deliver-calls :
      (id : String) (s : Store D C)
      → let (s', m) = get_message_by_server_id sql redis id s in
        (deliver sql redis online w now id s).1 ≡ elim m [
          | none ↦ []
          | some msg ↦ calls_of online id msg (with_named msg.to (get_recipients sql redis id s').1)
        ]
  unfolding deliver
  deliver-calls id s = elim (Option-cases (get_message_by_server_id sql redis id s).1) [
    | inl missing ↦ ground arith
    | inr (msg, there) ↦
        (let s' = (get_message_by_server_id sql redis id s).0 in
          let found = get_recipients sql redis id s' in
          let body : (deliver sql redis online w now id s).1
              ≡ (deliver_each sql redis online w now id msg (with_named msg.to found.1) found.0).1 =
            ground arith in
          rw there (body ∙ deliver_each-calls id msg (with_named msg.to found.1) found.0))
  ]

  -- Without a database, the delivery of a message that is stored tries each open delivery of it and, even if it is no
  -- longer open, that of the user it is addressed to, each once: an attempt is counted where the user is online,
  -- and a failure where not. No other delivery changes. The message and the user of the delivery are not named by
  -- empty texts, and each user has one entry for a message.
  pub deliver-entries :
      (id i t : String) (msg : Message) (s : Store D C)
      → s.persistent ≡ false
      → IsKeyed s.deliveries
      → get id s.messages ≡ some msg
      → is_empty id ≡ false
      → is_empty t ≡ false
      → entry i t (deliver sql redis online w now id s).0.deliveries ≡ (
          if str_eq id i && (is_open_entry (entry id t s.deliveries) || str_eq msg.to t)
          then map_entry (outcome online w now t) (entry i t s.deliveries)
          else entry i t s.deliveries)
  unfolding deliver
  deliver-entries id i t msg s memory keyed there hid ht =
      let rs = with_named msg.to (get_recipients sql redis id s).1 in
      let (same, open_ones) = get_recipients-open sql redis id t s memory keyed in
      let stored = message_found id msg s there in
      let body : (deliver sql redis online w now id s).0
          ≡ (deliver_each sql redis online w now id msg rs (get_recipients sql redis id s).0).0 =
        ground (arith, stored) in
      let members : contains t rs ≡ (is_open_entry (entry id t s.deliveries) || str_eq msg.to t) =
        contains-with_named t msg.to (get_recipients sql redis id s).1 ht
        ∙ ap (λ b. b || str_eq msg.to t) open_ones in
      ap (λ s'. entry i t s'.deliveries)
        (body ∙ ap (λ s'. (deliver_each sql redis online w now id msg rs s').0) same)
      ∙ deliver_each-entry id msg rs i t s hid ht (
          with_named-Distinct msg.to (get_recipients sql redis id s).1
            (get_recipients-Distinct sql redis id s memory keyed))
      ∙ ap
          (λ b.
            if str_eq id i && b
            then map_entry (outcome online w now t) (entry i t s.deliveries)
            else entry i t s.deliveries)
          members
